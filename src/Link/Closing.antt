-- ===== src/Link/Closing.antt =====
-- `Link.Close` of internal/datatunnel/link.go: every session of the link is done afterwards.
use airpc.Prelude.{
  ℕ, ◌≡◌, refl, ◌∙◌, ap, true, List, [], ◌∷◌, inl, inr, some, Text, text_eq, get_elem?, lookup,
  modify, modify_split, arith, Bool-cases,
}
use airpc.Session.{Session, mark_done}
use airpc.Session.Credit.{IsBounded}
use airpc.Link.{Link, mark_all, close}
use airpc.Link.Registry.{IsConsistent, IsBounded-mark_done}

-- What the loop over the map leaves of the session at an address.
record Kept (store : List Session) (p : ℕ) (s : Session) : Type 0 where
  old : Session
  at : get_elem? store p ≡ some old
  same_id : s.id ≡ old.id
  still_done : old.done ≡ true → s.done ≡ true
  still_bounded : IsBounded old → IsBounded s

mark_all-Kept :
    (m : List (Text × ℕ)) (store : List Session) (p : ℕ) (s : Session)
    → get_elem? (mark_all m store) p ≡ some s
    → Kept store p s
unfolding mark_all
mark_all-Kept [] store p s e = record {
  old = s;
  at = e;
  same_id = refl;
  still_done = λ d. d;
  still_bounded = λ b. b;
}
mark_all-Kept ((id, q) ∷ m) store p s e =
    let k = mark_all-Kept m (modify mark_done q store) p s e in
    elim (modify_split mark_done q p store k.old k.at) [
      | inl (_, (b, h, w)) ↦ record {
        old = b;
        at = h;
        same_id = k.same_id ∙ ap (λ t. t.id) w;
        still_done = λ _. k.still_done (ap (λ t. t.done) w);
        still_bounded = λ v. k.still_bounded (rw w (IsBounded-mark_done b v));
      }
      | inr (_, h) ↦ record {
        old = k.old;
        at = h;
        same_id = k.same_id;
        still_done = k.still_done;
        still_bounded = k.still_bounded;
      }
    ]

mark_all_done :
    (m : List (Text × ℕ)) (store : List Session) (p : ℕ) (s : Session) (id : Text)
    → get_elem? (mark_all m store) p ≡ some s
    → lookup id m ≡ some p
    → s.done ≡ true
unfolding mark_all lookup
mark_all_done [] store p s id e h = absurd (ground arith)
mark_all_done ((j, q) ∷ m) store p s id e h = elim (Bool-cases (text_eq j id)) [
  | inl here ↦
      let pq : q ≡ p = ground arith in
      let k = mark_all-Kept m (modify mark_done q store) p s e in
      elim (modify_split mark_done q p store k.old k.at) [
        | inl (_, (b, _, w)) ↦ k.still_done (ap (λ t. t.done) w)
        | inr (ne, _) ↦ absurd (ne pq)
      ]
  | inr later ↦ mark_all_done m (modify mark_done q store) p s id e (ground arith)
]

-- After `Close` every session is done, whether or not it was still registered.
pub close_done :
    (l : Link) (p : ℕ) (s : Session)
    → IsConsistent l
    → get_elem? (close l).store p ≡ some s
    → s.done ≡ true
unfolding close
close_done l p s v e =
    let k = mark_all-Kept l.sessions l.store p s e in
    elim (Bool-cases k.old.done) [
      | inl d ↦ k.still_done d
      | inr d ↦ mark_all_done l.sessions l.store p s k.old.id e ((v.alive p k.old k.at).0 d)
    ]

pub close-IsConsistent : (l : Link) → IsConsistent l → IsConsistent (close l)
unfolding close lookup
close-IsConsistent l v = record {
  alive = λ p s e. let d = close_done l p s v e in ((λ o. absurd (cc)), (λ o. absurd (cc)));
  named = λ id p e. absurd (cc);
  bounded = λ p s e.
      let k = mark_all-Kept l.sessions l.store p s e in k.still_bounded (v.bounded p k.old k.at);
}
