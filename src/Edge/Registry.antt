-- ===== src/Edge/Registry.antt =====
-- The registry of data tunnels in internal/edge/data.go while tunnels come and go: no tunnel that is
-- still connected is lost. The close of a link belongs to the step that drops it from the map.
use airpc.Prelude.{
  ℕ, suc, ◌<◌, ◌≡◌, ◌⊎◌, inl, inr, refl, sym, ◌∙◌, ap, subst, true, false, List, [], ◌∷◌, ◌++◌, All,
  some, Text, text_eq, text_eq_iff, length, length-append, lookup, insert, erase, lookup-insert,
  lookup-erase, get_elem?, length-modify, modify, ◌==◌, last_split, arith, Bool-cases, Option-cases,
}
use airpc.Link
use airpc.Link.{Link}
use airpc.Edge.Tunnels.{Tunnels, register, unregister, close_all}
use airpc.Edge.Drops.{
  Fewer, modify-Fewer, close-Fewer, close_links-Fewer, close_links-closed, length-close_old,
  close_old-Fewer, old_closed,
}

abbrev pub no_tunnels : Tunnels
no_tunnels = record { links = []; registered = [] }

-- A tunnel is registered with a new link; the loop of a link returns, which closes it; its handler
-- unregisters it then; a link is used otherwise; the edge shuts down.
pub data Step (t : Tunnels) : Tunnels → Type 0 where
  arrives :
      (id : Text) (l : Link)
      → Step t (register id (length t.links) (record t { links = t.links ++ l ∷ [] }))
  ends : (p : ℕ) → Step t (record t { links = modify Link.close p t.links })
  leaves :
      (id : Text) (p : ℕ) (l : Link)
      → get_elem? t.links p ≡ some l
      → l.connected ≡ false
      → Step t (unregister id p t)
  works :
      (p : ℕ) (l l' : Link)
      → get_elem? t.links p ≡ some l
      → l'.connected ≡ l.connected
      → Step t (record t { links = modify (λ _. l') p t.links })
  shuts : Step t (close_all t)

pub data Reach : Tunnels → Type 0 where
  none_yet : Reach no_tunnels
  behind : {t u : Tunnels} → Reach t → Step t u → Reach u

-- A link that is connected is registered, and what is registered is a link.
pub record IsTracked (t : Tunnels) : Type 0 where
  pub held :
      (p : ℕ) (l : Link)
      → get_elem? t.links p ≡ some l
      → l.connected ≡ true
      → (id : Text) × (lookup id t.registered ≡ some p)
  pub there : (id : Text) (p : ℕ) → lookup id t.registered ≡ some p → p < length t.links
  pub single :
      (id j : Text) (p : ℕ)
      → lookup id t.registered ≡ some p
      → lookup j t.registered ≡ some p
      → id ≡ j

Fewer-IsTracked :
    (t : Tunnels) (links : List Link)
    → length links ≡ length t.links
    → Fewer t.links links
    → IsTracked t
    → IsTracked (record t { links = links })
Fewer-IsTracked t links same fewer v = record {
  held = λ p l e c. let (k, at, d) = fewer p l e c in v.held p k at d;
  there = λ id p h. ground (arith, v.there id p h, same);
  single = v.single;
}

module _ (t : Tunnels) (id : Text) where
  kept-insert :
      (j : Text) (n p : ℕ)
      → text_eq id j ≡ false
      → lookup j t.registered ≡ some p
      → lookup j (insert id n t.registered) ≡ some p
  kept-insert j n p ne h = ground (arith, lookup-insert id j n t.registered, ne, h)

  taken-insert : (n : ℕ) → lookup id (insert id n t.registered) ≡ some n
  taken-insert n = ground (arith, lookup-insert id id n t.registered, text_eq_iff id id)

  insert-cases :
      (j : Text) (n p : ℕ)
      → lookup j (insert id n t.registered) ≡ some p
      → ((id ≡ j) × (p ≡ n)) ⊎ ((text_eq id j ≡ false) × (lookup j t.registered ≡ some p))
  insert-cases j n p h =
      let i = lookup-insert id j n t.registered in
      elim (Bool-cases (text_eq id j)) [
        | inl e ↦ inl ((text_eq_iff id j).0 e, ground (arith, i, e, h))
        | inr e ↦ inr (e, ground (arith, i, e, h))
      ]

arrives-IsTracked :
    (t : Tunnels) (id : Text) (l : Link)
    → IsTracked t
    → IsTracked (register id (length t.links) (record t { links = t.links ++ l ∷ [] }))
unfolding register
arrives-IsTracked t id l v =
    let n = length t.links in
    let links = t.links ++ l ∷ [] in
    let m = t.registered in
    record {
      held = λ p k e c.
          let (k0, at, d) = close_old-Fewer (lookup id m) links p k e c in
          elim (last_split t.links l p k0 at) [
            | inl (same, w) ↦ (id, taken-insert t id n ∙ ap some same)
            | inr old ↦
                let (j, h) = v.held p k0 old d in
                elim (Bool-cases (text_eq id j)) [
                  | inr ne ↦ (j, kept-insert t id j n p ne h)
                  | inl eq ↦
                      let here = ap (λ x. lookup x m) ((text_eq_iff id j).0 eq) ∙ h in
                      absurd (ground (arith, old_closed (lookup id m) links p k here e, c))
                ]
          ];
      there = λ j p h.
          let size = length-close_old (lookup id m) links in
          let grown = length-append t.links (l ∷ []) in
          elim (insert-cases t id j n p h) [
            | inl (same, w) ↦ omega (arith, size, grown, w)
            | inr (ne, old) ↦ omega (arith, size, grown, v.there j p old)
          ];
      single = λ i j p a b. elim (insert-cases t id i n p a) [
        | inl (same, w) ↦ elim (insert-cases t id j n p b) [
          | inl (same', w') ↦ sym same ∙ same'
          | inr (ne, old) ↦ absurd (omega (arith, w, v.there j p old))
        ]
        | inr (ne, old) ↦ elim (insert-cases t id j n p b) [
          | inl (same, w) ↦ absurd (omega (arith, w, v.there i p old))
          | inr (ne', old') ↦ v.single i j p old old'
        ]
      ];
    }

kept-erase :
    (t : Tunnels) (id j : Text) (p : ℕ)
    → lookup j (erase id t.registered) ≡ some p
    → lookup j t.registered ≡ some p
kept-erase t id j p h = ground (arith, lookup-erase id j t.registered, h)

-- Only the link itself is removed from the map.
unregister-cases :
    (id : Text) (p : ℕ) (t : Tunnels)
    → (unregister id p t ≡ t)
      ⊎ ((lookup id t.registered ≡ some p)
          × (unregister id p t ≡ record t { registered = erase id t.registered }))
unfolding unregister
unregister-cases id p t = elim (Option-cases (lookup id t.registered)) [
  | inl e ↦ inl (ground (arith, e))
  | inr (q, e) ↦ elim (Bool-cases (q == p)) [
    | inl same ↦ inr (ground (arith, e, same), ground (arith, e, same))
    | inr other ↦ inl (ground (arith, e, other))
  ]
]

leaves-IsTracked :
    (t : Tunnels) (id : Text) (p : ℕ) (l : Link)
    → get_elem? t.links p ≡ some l
    → l.connected ≡ false
    → IsTracked t
    → IsTracked (unregister id p t)
leaves-IsTracked t id p l at off v = elim (unregister-cases id p t) [
  | inl same ↦ subst IsTracked (sym same) v
  | inr (here, same) ↦ subst IsTracked (sym same) (record {
    held = λ q k e c.
        let (j, h) = v.held q k e c in
        elim (Bool-cases (text_eq id j)) [
          | inr ne ↦ (j, ground (arith, lookup-erase id j t.registered, ne, h))
          | inl eq ↦
              let there = ap (λ x. lookup x t.registered) ((text_eq_iff id j).0 eq) ∙ h in
              let qp : q ≡ p = ground (arith, here, there) in
              absurd (ground (arith, ap (get_elem? t.links) qp, at, e, off, c))
        ];
    there = λ j q h. v.there j q (kept-erase t id j q h);
    single = λ i j q a b. v.single i j q (kept-erase t id i q a) (kept-erase t id j q b);
  })
]

Step-IsTracked : {t u : Tunnels} → Step t u → IsTracked t → IsTracked u
unfolding close_all lookup
Step-IsTracked {t} (arrives id l) v = arrives-IsTracked t id l v
Step-IsTracked {t} (ends p) v =
    Fewer-IsTracked t _ (length-modify Link.close p t.links) (close-Fewer p t.links) v
Step-IsTracked {t} (leaves id p l at off) v = leaves-IsTracked t id p l at off v
Step-IsTracked {t} (works p l l' at same) v =
    Fewer-IsTracked t _ (length-modify (λ _. l') p t.links)
      (modify-Fewer (λ _. l') p t.links (λ k e c. ground (arith, at, e, same, c))) v
Step-IsTracked {t} shuts v = record {
  held = λ p l e c.
      let (k, at, d) = close_links-Fewer t.registered t.links p l e c in
      let (id, h) = v.held p k at d in
      absurd (ground (arith, close_links-closed t.registered t.links p l id h e, c));
  there = λ id p h. absurd (ground arith);
  single = λ i j p a b. absurd (ground arith);
}

all_off :
    (links : List Link)
    → ((p : ℕ) (l : Link) → get_elem? links p ≡ some l → l.connected ≡ false)
    → All (λ l. l.connected ≡ false) links
all_off [] h = tt
all_off (l ∷ links) h = (h 0 l refl, all_off links (λ p k e. h (suc p) k e))

reached : {t : Tunnels} → Reach t → IsTracked t
unfolding lookup
reached none_yet = record {
  held = λ p l e c. absurd (ground arith);
  there = λ id p h. absurd (ground arith);
  single = λ i j p a b. absurd (ground arith);
}
reached (behind r s) = Step-IsTracked s (reached r)

-- However tunnels come, go and replace one another: a link that is still connected is registered, under
-- one connector id only, so that the opening of a session finds it; and behind the shutdown no link is
-- connected, so that every connector notices.
pub Reach-IsTracked :
    {t : Tunnels} → Reach t → IsTracked t × All (λ l. l.connected ≡ false) (close_all t).links
unfolding close_all lookup
Reach-IsTracked {t} r =
    let v = reached r in
    let none_held = Step-IsTracked shuts v in
    (
      v,
      all_off (close_all t).links (λ p l e. elim (Bool-cases l.connected) [
        | inr off ↦ off
        | inl on ↦ let (id, h) = none_held.held p l e on in absurd (ground arith)
      ]),
    )
