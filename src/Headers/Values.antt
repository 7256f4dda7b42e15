-- ===== src/Headers/Values.antt =====
-- Which values internal/httpheaders/headers.go lets through, name by name.
use airpc.Prelude.{
  ℕ, ◌≡◌, refl, sym, ap, ◌∙◌, Bool, true, false, ◌&&◌, not, List, [], ◌∷◌, ◌++◌, append_assoc,
  append-nil, Text, text_eq, text_eq_iff, is_empty, lower_char, is_token_char, all, ◌==◌, lookup,
  insert, lookup-insert, inl, inr, if◌then◌else◌, arith, Bool-cases,
}
use airpc.Unary.{Header}
use airpc.Headers.{
  member, is_hop_by_hop, upper_char, canonical_from, canonical_header_key, values_of, add_value,
  copy_values, allowed_set, copy_headers, skips_request, skips_response, filter_request,
  filter_response,
}

upper_twice : (c : ℕ) → upper_char (upper_char c) ≡ upper_char c
unfolding upper_char
upper_twice c = ground arith

lower_twice : (c : ℕ) → lower_char (lower_char c) ≡ lower_char c
unfolding lower_char
lower_twice c = ground arith

upper_dash : (c : ℕ) → (upper_char c == b'-') ≡ (c == b'-')
unfolding upper_char
upper_dash c = ground arith

lower_dash : (c : ℕ) → (lower_char c == b'-') ≡ (c == b'-')
unfolding lower_char
lower_dash c = ground arith

canonical_from_twice :
    (u : Bool) (s : Text) → canonical_from u (canonical_from u s) ≡ canonical_from u s
unfolding canonical_from
canonical_from_twice u [] = refl
canonical_from_twice true (c ∷ s) =
    rw (upper_twice c, upper_dash c, canonical_from_twice (c == b'-') s) refl
canonical_from_twice false (c ∷ s) =
    rw (lower_twice c, lower_dash c, canonical_from_twice (c == b'-') s) refl

upper_token : (c : ℕ) → is_token_char c ≡ true → is_token_char (upper_char c) ≡ true
unfolding upper_char is_token_char
upper_token c h = ground arith

lower_token : (c : ℕ) → is_token_char c ≡ true → is_token_char (lower_char c) ≡ true
unfolding lower_char is_token_char
lower_token c h = ground arith

canonical_tokens :
    (u : Bool) (s : Text)
    → all is_token_char s ≡ true
    → all is_token_char (canonical_from u s) ≡ true
unfolding canonical_from
canonical_tokens u [] h = refl
canonical_tokens true (c ∷ s) h = ground (arith, upper_token c, canonical_tokens (c == b'-') s)
canonical_tokens false (c ∷ s) h = ground (arith, lower_token c, canonical_tokens (c == b'-') s)

pub canonical_twice :
    (s : Text) → canonical_header_key (canonical_header_key s) ≡ canonical_header_key s
unfolding canonical_header_key
canonical_twice s = elim (Bool-cases (all is_token_char s)) [
  | inl e ↦
      let f = canonical_tokens true s e in let g = canonical_from_twice true s in rw e (rw f g)
  | inr e ↦ rw e (rw e refl)
]

values-insert :
    (k name : Text) (vs : List Text) (h : Header)
    → values_of k (insert name vs h) ≡ (if text_eq name k then vs else values_of k h)
unfolding values_of
values-insert k name vs h = ground (arith, lookup-insert name k vs h)

-- A value that is added under a canonical name goes behind the values of that name.
values-add :
    (k name value : Text) (h : Header)
    → canonical_header_key name ≡ name
    → values_of k (add_value name value h)
      ≡ (if text_eq name k then values_of k h ++ value ∷ [] else values_of k h)
unfolding add_value
values-add k name value h c = elim (Bool-cases (text_eq name k)) [
  | inl e ↦
      let q = (text_eq_iff name k).0 e in
      let i = values-insert k name (values_of name h ++ value ∷ []) h in
      rw c (rw i (rw e (rw q refl)))
  | inr e ↦
      let i = values-insert k name (values_of name h ++ value ∷ []) h in rw c (rw i (rw e refl))
]

pub values-copy :
    (k name : Text) (values : List Text) (h : Header)
    → canonical_header_key name ≡ name
    → values_of k (copy_values name values h)
      ≡ (if text_eq name k then values_of k h ++ values else values_of k h)
unfolding copy_values
values-copy k name [] h c = elim (Bool-cases (text_eq name k)) [
  | inl e ↦ rw e (sym (append-nil (values_of k h)))
  | inr e ↦ rw e refl
]
values-copy k name (v ∷ vs) h c =
    let ih = values-copy k name vs (add_value name v h) c in
    let a = values-add k name v h c in
    elim (Bool-cases (text_eq name k)) [
      | inl e ↦ rw (ih, a, e) (append_assoc (values_of k h) (v ∷ []) vs)
      | inr e ↦ rw (ih, a, e) refl
    ]

-- All values under names that have the same canonical form, in order.
unfoldable pub collected : Text → Header → List Text
collected k [] = []
collected k ((name, values) ∷ src) =
    let rest = collected k src in
    if text_eq (canonical_header_key name) k then values ++ rest else rest

values-copy_headers :
    (skips : Text → Bool) (k : Text) (src dst : Header)
    → values_of k (copy_headers skips src dst)
      ≡ values_of k dst ++ (if skips k then [] else collected k src)
unfolding copy_headers collected
values-copy_headers skips k [] dst = elim (Bool-cases (skips k)) [
  | inl e ↦ rw e (sym (append-nil (values_of k dst)))
  | inr e ↦ rw e (sym (append-nil (values_of k dst)))
]
values-copy_headers skips k ((name, vs) ∷ src) dst =
    let key = canonical_header_key name in
    let ih = values-copy_headers skips k src dst in
    let copied = values-copy_headers skips k src (copy_values key vs dst) in
    let c = values-copy k key vs dst (canonical_twice name) in
    elim (Bool-cases (text_eq key k)) [
      | inl e ↦
          let q = (text_eq_iff key k).0 e in
          elim (Bool-cases (skips k)) [
            | inl f ↦ rw q (rw f (rw ih (rw f refl)))
            | inr f ↦
                let fk : skips key ≡ false = ap skips q ∙ f in
                rw (fk, e)
                  (rw copied
                    (rw c (rw (f, e) (append_assoc (values_of k dst) vs (collected k src)))))
          ]
      | inr e ↦ elim (Bool-cases (skips key)) [
        | inl f ↦ rw f (rw e ih)
        | inr f ↦ rw f (rw e (rw copied (rw c (rw e refl))))
      ]
    ]

pub nothing : (k : Text) → values_of k [] ≡ []
unfolding values_of lookup
nothing k = refl

-- Of a request, exactly the values under allowed end-to-end names pass, all of them and in order.
pub filter_request-values :
    (src : Header) (allowed : List Text) (k : Text)
    → values_of k (filter_request src allowed)
      ≡ (if member k (allowed_set allowed) && not (is_hop_by_hop k) then collected k src else [])
unfolding filter_request
filter_request-values src allowed k =
    let e = values-copy_headers (skips_request allowed) k src [] in
    let z : values_of k [] ≡ [] = nothing k in ground (arith, e, z)

-- Of a response, exactly the values under end-to-end names pass, all of them and in order.
pub filter_response-values :
    (src : Header) (k : Text)
    → values_of k (filter_response src)
      ≡ (if not (is_empty k) && not (is_hop_by_hop k) then collected k src else [])
unfolding filter_response
filter_response-values src k =
    let e = values-copy_headers skips_response k src [] in
    let z : values_of k [] ≡ [] = nothing k in ground (arith, e, z)
