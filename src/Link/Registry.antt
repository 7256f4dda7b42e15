-- ===== src/Link/Registry.antt =====
-- The session registry of internal/datatunnel/link.go: the map, the store of sessions and their
-- `done` channels agree. The primitive changes keep the agreement.
use airpc.Prelude.{
  ℕ, ◌≡◌, ◌≢◌, ◌↔◌, inl, inr, refl, sym, ◌∙◌, ap, subst, false, List, [], ◌∷◌, ◌++◌, none, some,
  Text, text_eq, text_eq_iff, text_eq_refl, length, get_elem?, get_elem?-lt, lookup, erase, insert,
  lookup-erase, lookup-insert, modify, modify_split, last_split, get_elem?-modify_of,
  get_elem?-last, ◌==◌, arith, Bool-cases,
}
use airpc.Session.{Session, new_session, mark_done}
use airpc.Session.Credit.{IsBounded, new_session-IsBounded}
use airpc.Link.{Link}

-- A session is open exactly while the map leads from its id to it; every entry leads to a session
-- of its id; every session keeps its bounds.
pub record Agrees (store : List Session) (sessions : List (Text × ℕ)) : Type 0 where
  pub alive :
      (p : ℕ) (s : Session)
      → get_elem? store p ≡ some s
      → (s.done ≡ false) ↔ (lookup s.id sessions ≡ some p)
  pub named :
      (id : Text) (p : ℕ)
      → lookup id sessions ≡ some p
      → (s : Session) × (get_elem? store p ≡ some s) × (s.id ≡ id)
  pub bounded : (p : ℕ) (s : Session) → get_elem? store p ≡ some s → IsBounded s

abbrev pub IsConsistent : Link → Type 0
IsConsistent l = Agrees l.store l.sessions

pub IsBounded-mark_done : (s : Session) → IsBounded s → IsBounded (mark_done s)
IsBounded-mark_done s b = record { window = b.window; queue = b.queue; unacked = b.unacked }

pub empty-Agrees : Agrees [] []
unfolding lookup
empty-Agrees = record {
  alive = λ p s e. absurd (cc);
  named = λ id p e. absurd (cc);
  bounded = λ p s e. absurd (cc);
}

module _ (store : List Session) (sessions : List (Text × ℕ)) (v : Agrees store sessions) where
  -- A change that leaves the id and the `done` channel alone, and keeps the bounds.
  module _ (f : Session → Session) (p : ℕ)
      (same_id : (s : Session) → get_elem? store p ≡ some s → (f s).id ≡ s.id)
      (same_done : (s : Session) → get_elem? store p ≡ some s → (f s).done ≡ s.done)
      (keeps : (s : Session) → get_elem? store p ≡ some s → IsBounded s → IsBounded (f s)) where
    pub change-Agrees : Agrees (modify f p store) sessions
    change-Agrees = record {
      alive = λ q s e. elim (modify_split f p q store s e) [
        | inl (pq, (b, h, k)) ↦
            let at = subst (λ r. get_elem? store r ≡ some b) (sym pq) h in
            let old = v.alive q b h in
            let same = ap (λ t. t.done) k ∙ same_done b at in
            let ident = ap (λ t. t.id) k ∙ same_id b at in
            (λ d. rw ident (old.0 (sym same ∙ d)), λ d. same ∙ old.1 (rw ident at d))
        | inr (ne, h) ↦ v.alive q s h
      ];
      named = λ id q e.
          let (s, h, i) = v.named id q e in
          elim (Bool-cases (p == q)) [
            | inl eq ↦
                let at : get_elem? store p ≡ some s = ground arith in
                (f s, get_elem?-modify_of f p q store s h ∙ rw eq, same_id s at ∙ i)
            | inr ne ↦ (s, get_elem?-modify_of f p q store s h ∙ rw ne, i)
          ];
      bounded = λ q s e. elim (modify_split f p q store s e) [
        | inl (pq, (b, h, k)) ↦
            let at = subst (λ r. get_elem? store r ≡ some b) (sym pq) h in
            rw k (keeps b at (v.bounded q b h))
        | inr (ne, h) ↦ v.bounded q s h
      ];
    }

  -- A new session under an unused id.
  pub add-Agrees :
      (id : Text)
      → lookup id sessions ≡ none
      → Agrees (store ++ new_session id ∷ []) (insert id (length store) sessions)
  unfolding new_session
  add-Agrees id free = record {
    alive = λ q s e. elim (last_split store (new_session id) q s e) [
      | inl (q_new, s_new) ↦ rw s_new (
        λ d. lookup-insert id id (length store) sessions ∙ rw (text_eq_refl id) (ap some q_new),
        λ d. refl,
      )
      | inr h ↦
          let old = v.alive q s h in
          let at = lookup-insert id s.id (length store) sessions in
          (
            λ d. ground (arith, at, old.0 d, text_eq_iff id s.id),
            λ d. ground (arith, at, old.1, text_eq_iff id s.id, get_elem?-lt store q h),
          )
    ];
    named = λ j q e. elim (Bool-cases (text_eq id j)) [
      | inl same ↦ (
        new_session id,
        ground (
          arith,
          lookup-insert id j (length store) sessions,
          get_elem?-last store (new_session id) q,
        ),
        (text_eq_iff id j).0 same,
      )
      | inr other ↦
          let old : lookup j sessions ≡ some q =
            ground (arith, lookup-insert id j (length store) sessions) in
          let (s, h, i) = v.named j q old in
          (s, ground (arith, h, get_elem?-lt store q h, get_elem?-last store (new_session id) q), i)
    ];
    bounded = λ q s e. elim (last_split store (new_session id) q s e) [
      | inl (q_new, s_new) ↦ rw s_new (new_session-IsBounded id)
      | inr h ↦ v.bounded q s h
    ];
  }

  -- An entry that is not there is removed.
  pub erase-Agrees : (id : Text) → lookup id sessions ≡ none → Agrees store (erase id sessions)
  erase-Agrees id free = record {
    alive = λ q s e.
        let old = v.alive q s e in
        let at = lookup-erase id s.id sessions in
        (λ d. ground (arith, at, old.0 d, text_eq_iff id s.id), λ d. old.1 (ground (arith, at, d)));
    named = λ j q e. v.named j q (ground (arith, lookup-erase id j sessions));
    bounded = v.bounded;
  }

  -- An entry is removed, and the session that it names is done.
  pub remove-Agrees :
      (id : Text) (p : ℕ)
      → lookup id sessions ≡ some p
      → Agrees (modify mark_done p store) (erase id sessions)
  remove-Agrees id p found =
      let (gone, at, ident) = v.named id p found in
      record {
        alive = λ q s e. elim (modify_split mark_done p q store s e) [
          | inl (pq, (b, h, k)) ↦
              let same : b.id ≡ id = ground arith in
              rw k (
                λ d. absurd (cc),
                λ d. absurd (ground (arith, lookup-erase id b.id sessions, text_eq_iff id b.id)),
              )
          | inr (ne, h) ↦
              let old = v.alive q s h in
              let lk = lookup-erase id s.id sessions in
              (
                λ d. ground (arith, lk, old.0 d, text_eq_iff id s.id),
                λ d. old.1 (ground (arith, lk, d)),
              )
        ];
        named = λ j q e.
            let old : lookup j sessions ≡ some q = ground (arith, lookup-erase id j sessions) in
            let (s, h, i) = v.named j q old in
            let other : p ≢ q =
              λ eq. ground (arith, lookup-erase id j sessions, text_eq_iff id j) in
            (s, get_elem?-modify_of mark_done p q store s h ∙ (ground arith), i);
        bounded = λ q s e. elim (modify_split mark_done p q store s e) [
          | inl (pq, (b, h, k)) ↦ rw k (IsBounded-mark_done b (v.bounded q b h))
          | inr (ne, h) ↦ v.bounded q s h
        ];
      }
