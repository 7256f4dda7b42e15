-- ===== src/Connector/Kept.antt =====
-- The map of the calls in flight of internal/connector/proxy.go, over any history of calls.
use airpc.Prelude.{
  ℕ, ◌≡◌, ◌≢◌, ◌∙◌, refl, sym, subst, inl, inr, true, false, [], ◌∷◌, ◌++◌, Option, none, some,
  Text, text_eq, text_eq_iff, text_eq_refl, text_eq_ne, length, length-append, length-modify,
  get_elem?, get_elem?-lt, get_elem?-last, lookup, lookup-insert, lookup-erase, modify,
  modify_split, last_split, get_elem?-modify_of, arith, Bool-cases, Option-cases,
}
use airpc.Connector.Inflight.{
  Inflight, track, cancel_context, finish, cancel, Started, InFlight, Step, started, finished,
  cancelled, expired, Reachable, fresh, after,
}

-- The calls whose context is not cancelled are all in the map.
Tracked : Inflight → Type 0
Tracked c =
    (p : ℕ) → get_elem? c.contexts p ≡ some false → (id : Text) × (lookup id c.calls ≡ some p)

track-Tracked :
    (c : Inflight) (id : Text) → lookup id c.calls ≡ none → Tracked c → Tracked (track id c).1
unfolding Tracked track
track-Tracked c id free t p h = elim (last_split c.contexts false p false h) [
  | inl (at, e) ↦
      let i = lookup-insert id id (length c.contexts) c.calls in
      (id, ground (arith, i, text_eq_refl id, at))
  | inr old ↦
      let (j, e) = t p old in
      let ne : id ≢ j =
        λ q. let f = subst (λ k. lookup k c.calls ≡ none) q free in absurd (ground (arith, e, f)) in
      let i = lookup-insert id j (length c.contexts) c.calls in
      (j, ground (arith, i, text_eq_ne id j ne, e))
]

finish-Tracked :
    (c : Inflight) (id : Text) (p : ℕ)
    → lookup id c.calls ≡ some p
    → Tracked c
    → Tracked (finish id p c)
unfolding Tracked finish
finish-Tracked c id p own t q h = elim (modify_split (λ _. true) p q c.contexts false h) [
  | inl (at, (b, e, k)) ↦ absurd (ground (arith, k))
  | inr (ne, old) ↦
      let (j, e) = t q old in
      let nj : id ≢ j = λ s.
        let f = subst (λ k. lookup k c.calls ≡ some p) s own in
        absurd (ne (ground (arith, e, f))) in
      let i = lookup-erase id j c.calls in (j, ground (arith, i, text_eq_ne id j nj, e))
]

cancel_context-Tracked : (c : Inflight) (p : ℕ) → Tracked c → Tracked (cancel_context p c)
unfolding Tracked
cancel_context-Tracked c p t q h = elim (modify_split (λ _. true) p q c.contexts false h) [
  | inl (at, (b, f, k)) ↦ absurd (ground (arith, k))
  | inr (ne, old) ↦ t q old
]

cancel-Tracked : (c : Inflight) (id : Text) → Tracked c → Tracked (cancel id c)
unfolding cancel
cancel-Tracked c id t = elim (Option-cases (lookup id c.calls)) [
  | inl e ↦ let same : cancel id c ≡ c = ground (arith, e) in subst Tracked (sym same) t
  | inr (p, e) ↦
      let same : cancel id c ≡ cancel_context p c = ground (arith, e) in
      subst Tracked (sym same) (cancel_context-Tracked c p t)
]

-- The map has exactly the calls in flight.
record IsKept (c : Inflight) (calls : Started) : Type 0 where
  tracked : Tracked c
  addresses : length calls ≡ length c.contexts
  held : (p : ℕ) (id : Text) → InFlight calls p id → lookup id c.calls ≡ some p
  only : (p : ℕ) (id : Text) → lookup id c.calls ≡ some p → InFlight calls p id

not_held :
    (c : Inflight) (calls : Started) (id : Text)
    → IsKept c calls
    → ((p : ℕ) → InFlight calls p id → ⊥)
    → lookup id c.calls ≡ none
not_held c calls id k free = elim (Option-cases (lookup id c.calls)) [
  | inl e ↦ e
  | inr (p, e) ↦ absurd (free p (k.only p id e))
]

track-IsKept :
    (c : Inflight) (calls : Started) (id : Text)
    → ((p : ℕ) → InFlight calls p id → ⊥)
    → IsKept c calls
    → IsKept (track id c).1 (calls ++ some id ∷ [])
unfolding track
track-IsKept c calls id free k =
    let n = length c.contexts in
    record {
      tracked = track-Tracked c id (not_held c calls id k free) k.tracked;
      addresses =
          let a = length-append calls (some id ∷ []) in
          let b = length-append c.contexts (false ∷ []) in omega (arith, a, b, k.addresses);
      held = λ p j h. elim (last_split calls (some id) p (some j) h) [
        | inl (at, e) ↦
            let i = lookup-insert id j n c.calls in
            let same : id ≡ j = ground (arith, e) in
            ground (arith, i, text_eq_refl id, same, at, k.addresses)
        | inr old ↦
            let ne : id ≢ j = λ q. free p (subst (λ x. InFlight calls p x) (sym q) old) in
            let i = lookup-insert id j n c.calls in
            let o = k.held p j old in ground (arith, i, text_eq_ne id j ne, o)
      ];
      only = λ p j h.
          let i = lookup-insert id j n c.calls in
          let last = get_elem?-last calls (some id) p in
          elim (Bool-cases (text_eq id j)) [
            | inl same ↦
                let e : id ≡ j = (text_eq_iff id j).0 same in
                ground (arith, i, same, h, last, k.addresses, e)
            | inr other ↦
                let old = k.only p j (ground (arith, i, other, h)) in
                let lt = get_elem?-lt calls p old in ground (arith, old, lt, last)
          ];
    }

finish-IsKept :
    (c : Inflight) (calls : Started) (id : Text) (p : ℕ)
    → InFlight calls p id
    → IsKept c calls
    → IsKept (finish id p c) (modify (λ _. none) p calls)
unfolding finish
finish-IsKept c calls id p h k =
    let own = k.held p id h in
    record {
      tracked = finish-Tracked c id p own k.tracked;
      addresses =
          let a = length-modify {A = Option Text} (λ _. none) p calls in
          let b = length-modify (λ _. true) p c.contexts in omega (arith, a, b, k.addresses);
      held = λ q j g. elim (modify_split (λ _. none) p q calls (some j) g) [
        | inl (at, (b, e, x)) ↦ absurd (ground (arith, x))
        | inr (ne, old) ↦
            let o = k.held q j old in
            let nj : id ≢ j = λ s.
              let f = subst (λ x. lookup x c.calls ≡ some p) s own in
              absurd (ne (ground (arith, o, f))) in
            let i = lookup-erase id j c.calls in ground (arith, i, text_eq_ne id j nj, o)
      ];
      only = λ q j g.
          let i = lookup-erase id j c.calls in
          elim (Bool-cases (text_eq id j)) [
            | inl same ↦ absurd (ground (arith, i, same, g))
            | inr other ↦
                let old = k.only q j (ground (arith, i, other, g)) in
                let m = get_elem?-modify_of (λ _. none) p q calls (some j) old in
                let ne : p ≢ q = λ s.
                  let f = subst (λ x. InFlight calls x id) s h in
                  let e : id ≡ j = ground (arith, f, old) in
                  let t = (text_eq_iff id j).1 e in absurd (ground (arith, t, other)) in
                ground (arith, m, ne)
          ];
    }

cancel_context-IsKept :
    (c : Inflight) (calls : Started) (p : ℕ) → IsKept c calls → IsKept (cancel_context p c) calls
cancel_context-IsKept c calls p k = record {
  tracked = cancel_context-Tracked c p k.tracked;
  addresses = k.addresses ∙ sym (length-modify (λ _. true) p c.contexts);
  held = k.held;
  only = k.only;
}

cancel-IsKept :
    (c : Inflight) (calls : Started) (id : Text) → IsKept c calls → IsKept (cancel id c) calls
unfolding cancel
cancel-IsKept c calls id k = elim (Option-cases (lookup id c.calls)) [
  | inl e ↦
      let same : cancel id c ≡ c = ground (arith, e) in subst (λ x. IsKept x calls) (sym same) k
  | inr (p, e) ↦
      let same : cancel id c ≡ cancel_context p c = ground (arith, e) in
      subst (λ x. IsKept x calls) (sym same) (cancel_context-IsKept c calls p k)
]

Step-IsKept :
    (c d : Inflight) (calls calls' : Started)
    → Step c calls d calls'
    → IsKept c calls
    → IsKept d calls'
Step-IsKept c d calls calls' (started id free) k = track-IsKept c calls id free k
Step-IsKept c d calls calls' (finished id p h) k = finish-IsKept c calls id p h k
Step-IsKept c d calls calls' (cancelled id) k = cancel-IsKept c calls id k
Step-IsKept c d calls calls' (expired p) k = cancel_context-IsKept c calls p k

Reachable-IsKept : (c : Inflight) (calls : Started) → Reachable c calls → IsKept c calls
unfolding Tracked lookup
Reachable-IsKept c calls fresh = record {
  tracked = λ p h. absurd (ground (arith, h));
  addresses = refl;
  held = λ p id h. absurd (ground (arith, h));
  only = λ p id h. absurd (ground (arith, h));
}
Reachable-IsKept c calls (after {c = b} {calls = before} r s) =
    Step-IsKept b c before calls s (Reachable-IsKept b before r)

-- After any history of calls and cancels in which no call starts under the id of another in flight: every
-- backend call whose context has not ended is in flight, and a cancel message with the id that it was
-- started under ends its context.
pub running-cancellable :
    (c : Inflight) (calls : Started) (p : ℕ)
    → Reachable c calls
    → get_elem? c.contexts p ≡ some false
    → (id : Text) × InFlight calls p id × (get_elem? (cancel id c).contexts p ≡ some true)
unfolding Tracked cancel
running-cancellable c calls p r h =
    let k = Reachable-IsKept c calls r in
    let (id, e) = k.tracked p h in
    let m = get_elem?-modify_of (λ _. true) p p c.contexts false h in
    (id, k.only p id e, ground (arith, e, m))
