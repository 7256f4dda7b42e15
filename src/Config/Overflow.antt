-- ===== src/Config/Overflow.antt =====
-- When the byte sizes of internal/config/config.go are what they say.
use airpc.Prelude.{
  ℕ, ◌*◌, ◌≤◌, ◌<◌, ◌≡◌, ◌≢◌, ◌↔◌, refl, ◌∙◌, ap, inl, inr, true, false, [], ◌∷◌, ◌++◌, some, Text,
  is_empty, to_lower, trim_space, is_digit, decimal, parse_uint, all, ltb, lookup, ℤ, pos, ok,
  arith, Bool-cases,
}
use airpc.Config.Sizes.{byte_units, max_int64, wrap64, span_digits, with_unit, parse_bytes}

wrap64_small : (n : ℕ) → n ≤ max_int64 → wrap64 n ≡ pos n
unfolding wrap64
wrap64_small n h = ground arith

wrap64_large : (n : ℕ) → max_int64 < n → wrap64 n ≢ pos n
unfolding wrap64
wrap64_large n h q = absurd (ground arith)

fits : (n : ℕ) → wrap64 n ≡ pos n → n ≤ max_int64
fits n w = elim (Bool-cases (ltb max_int64 n)) [
  | inl e ↦ absurd (wrap64_large n (ground (arith, e)) w)
  | inr e ↦ ground (arith, e)
]

not_empty : (ds us : Text) (u : ℕ) → is_empty (ds ++ u ∷ us) ≡ false
not_empty [] us u = refl
not_empty (d ∷ ds) us u = refl

span-digits :
    (ds us : Text) (u : ℕ)
    → all is_digit ds ≡ true
    → is_digit u ≡ false
    → span_digits (ds ++ u ∷ us) ≡ (ds, u ∷ us)
unfolding span_digits
span-digits [] us u h k = rw k refl
span-digits (d ∷ ds) us u h k =
    let ih = span-digits ds us u (ground (arith, h)) k in
    let e : is_digit d ≡ true = ground (arith, h) in rw e (rw ih refl)

number_read :
    (ds : Text)
    → is_empty ds ≡ false
    → all is_digit ds ≡ true
    → decimal ds ≤ max_int64
    → parse_uint max_int64 ds ≡ some (decimal ds)
unfolding parse_uint
number_read ds e h le = ground (arith, e, h, le)

-- The product is taken in int64.
parse_bytes-product :
    (raw ds us : Text) (u m : ℕ)
    → trim_space raw ≡ ds ++ u ∷ us
    → is_empty ds ≡ false
    → all is_digit ds ≡ true
    → is_digit u ≡ false
    → decimal ds ≤ max_int64
    → lookup (to_lower (u ∷ us)) byte_units ≡ some m
    → parse_bytes raw ≡ ok (wrap64 (decimal ds * m))
unfolding parse_bytes with_unit
parse_bytes-product raw ds us u m t e h k le unit =
    let s = span-digits ds us u h k in
    let n = number_read ds e h le in
    let full : is_empty (ds ++ u ∷ us) ≡ false = not_empty ds us u in
    ground (arith, t, s, n, unit, e, full)

-- A size of digits that make a number of an int64, and of a known unit, is always read; and it is read as
-- the product of the number and the unit exactly if that product fits into an int64. A larger product is
-- not refused: it is read as another number.
pub parse_bytes-exact_iff :
    (raw ds us : Text) (u m : ℕ)
    → trim_space raw ≡ ds ++ u ∷ us
    → is_empty ds ≡ false
    → all is_digit ds ≡ true
    → is_digit u ≡ false
    → decimal ds ≤ max_int64
    → lookup (to_lower (u ∷ us)) byte_units ≡ some m
    → ((z : ℤ) × (parse_bytes raw ≡ ok z) × (z ≡ wrap64 (decimal ds * m)))
      × ((parse_bytes raw ≡ ok (pos (decimal ds * m))) ↔ (decimal ds * m ≤ max_int64))
parse_bytes-exact_iff raw ds us u m t e h k le unit =
    let p = parse_bytes-product raw ds us u m t e h k le unit in
    (
      (wrap64 (decimal ds * m), p, refl),
      (
        λ q.
            let w : wrap64 (decimal ds * m) ≡ pos (decimal ds * m) = ground arith in
            fits (decimal ds * m) w,
        λ b. p ∙ ap (λ z. ok z) (wrap64_small (decimal ds * m) b),
      ),
    )
