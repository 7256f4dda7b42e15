-- ===== src/Headers/Normal.antt =====
-- Header maps as the filters of internal/httpheaders/headers.go leave them, and what becomes of their
-- values when internal/edge/edge.go adds them one by one to the headers of an answer.
use airpc.Prelude.{
  ◌≡◌, refl, sym, ap, subst, ◌∙◌, Bool, not, ◌&&◌, List, [], ◌∷◌, ◌++◌, none, append-nil,
  append_assoc, Text, text_eq, text_eq_iff, is_empty, lookup, erase, insert, lookup-erase, inl, inr,
  if◌then◌else◌, arith, Bool-cases,
}
use airpc.Unary.{Header}
use airpc.Headers.{
  is_hop_by_hop, canonical_header_key, values_of, add_value, copy_values, copy_headers,
  skips_response, filter_response,
}
use airpc.Headers.Values.{canonical_twice, values-copy, collected, nothing, filter_response-values}

-- Every name is canonical and stands once.
abbrev IsNormal : Header → Type 0
IsNormal [] = Unit {0}
IsNormal ((name, values) ∷ h) =
    (canonical_header_key name ≡ name) × (lookup name h ≡ none) × IsNormal h

erase-IsNormal : (k : Text) (h : Header) → IsNormal h → IsNormal (erase k h)
unfolding erase
erase-IsNormal k [] n = n
erase-IsNormal k ((name, vs) ∷ h) (c, l, n) = elim (Bool-cases (text_eq name k)) [
  | inl e ↦ rw e (erase-IsNormal k h n)
  | inr e ↦ rw e (c, ground (arith, lookup-erase k name h, l), erase-IsNormal k h n)
]

add_value-IsNormal : (name v : Text) (h : Header) → IsNormal h → IsNormal (add_value name v h)
unfolding add_value insert
add_value-IsNormal name v h n =
    let key = canonical_header_key name in
    (
      canonical_twice name,
      ground (arith, lookup-erase key key h, text_eq_iff key key),
      erase-IsNormal key h n,
    )

copy_values-IsNormal :
    (name : Text) (vs : List Text) (h : Header) → IsNormal h → IsNormal (copy_values name vs h)
unfolding copy_values
copy_values-IsNormal name [] h n = n
copy_values-IsNormal name (v ∷ vs) h n =
    copy_values-IsNormal name vs (add_value name v h) (add_value-IsNormal name v h n)

copy_headers-IsNormal :
    (skips : Text → Bool) (src dst : Header) → IsNormal dst → IsNormal (copy_headers skips src dst)
unfolding copy_headers
copy_headers-IsNormal skips [] dst n = n
copy_headers-IsNormal skips ((name, vs) ∷ src) dst n =
    let key = canonical_header_key name in
    elim (Bool-cases (skips key)) [
      | inl e ↦ rw e (copy_headers-IsNormal skips src dst n)
      | inr e ↦
          let m = copy_values-IsNormal key vs dst n in
          rw e (copy_headers-IsNormal skips src (copy_values key vs dst) m)
    ]

filter_response-IsNormal : (src : Header) → IsNormal (filter_response src)
unfolding filter_response
filter_response-IsNormal src = copy_headers-IsNormal skips_response src [] tt

-- `for name, values := range src { for _, value := range values { dst.Add(name, value) } }`
unfoldable pub add_headers : Header → Header → Header
add_headers [] dst = dst
add_headers ((name, values) ∷ src) dst = add_headers src (copy_values name values dst)

collected-add_headers :
    (k : Text) (src dst : Header)
    → IsNormal src
    → values_of k (add_headers src dst) ≡ values_of k dst ++ collected k src
unfolding add_headers collected
collected-add_headers k [] dst n = sym (append-nil (values_of k dst))
collected-add_headers k ((name, vs) ∷ src) dst (c, l, n) =
    let ih = collected-add_headers k src (copy_values name vs dst) n in
    let v = values-copy k name vs dst c in
    elim (Bool-cases (text_eq name k)) [
      | inl e ↦ rw (ih, v, c, e) (append_assoc (values_of k dst) vs (collected k src))
      | inr e ↦ rw (ih, v, c, e) refl
    ]

missing-values : (k : Text) (h : Header) → lookup k h ≡ none → values_of k h ≡ []
unfolding values_of
missing-values k h e = ground (arith, e)

values-cons :
    (k name : Text) (vs : List Text) (h : Header)
    → values_of k ((name, vs) ∷ h) ≡ (if text_eq name k then vs else values_of k h)
unfolding values_of lookup
values-cons k name vs h = ground arith

collected-IsNormal : (k : Text) (h : Header) → IsNormal h → collected k h ≡ values_of k h
unfolding collected
collected-IsNormal k [] n = sym (nothing k)
collected-IsNormal k ((name, vs) ∷ h) (c, l, n) =
    let ih = collected-IsNormal k h n in
    let front = values-cons k name vs h in
    elim (Bool-cases (text_eq name k)) [
      | inl e ↦
          let q = (text_eq_iff name k).0 e in
          let gone = missing-values k h (subst (λ j. lookup j h ≡ none) q l) in
          rw (front, c, e) (ap (λ rest. vs ++ rest) (ih ∙ gone) ∙ append-nil vs)
      | inr e ↦ rw (front, c, e) ih
    ]

-- The headers of an answer have exactly the values under end-to-end names of a response, all of them
-- and in order.
pub add_headers-filter_response :
    (src : Header) (k : Text)
    → values_of k (add_headers (filter_response src) [])
      ≡ (if not (is_empty k) && not (is_hop_by_hop k) then collected k src else [])
add_headers-filter_response src k =
    let n = filter_response-IsNormal src in
    let added = collected-add_headers k (filter_response src) [] n in
    let z = nothing k in
    let kept = collected-IsNormal k (filter_response src) n in
    added ∙ rw z (kept ∙ filter_response-values src k)
