-- ===== src/Config/Sizes.antt =====
-- `parseBytes` of internal/config/config.go, with the wrap-around of its product in int64. The text
-- is ASCII.
use airpc.Prelude.{
  ℕ, ◌-◌, ◌*◌, ◌%◌, List, [], ◌∷◌, none, some, Text, text, is_empty, to_lower, trim_space, is_digit,
  parse_uint, ltb, lookup, ℤ, pos, negsuc, Result, ok, err, if◌then◌else◌,
}
use airpc.Config.Errors.{Invalid, missing_number, bad_number, unknown_unit}

abbrev pub byte_units : List (Text × ℕ)
byte_units =
    (text "b", 1)
    ∷ (text "kb", 1000)
    ∷ (text "mb", 1000000)
    ∷ (text "gb", 1000000000)
    ∷ (text "kib", 1024)
    ∷ (text "mib", 1048576)
    ∷ (text "gib", 1073741824)
    ∷ []

abbrev pub max_int64 : ℕ
max_int64 = 9223372036854775807

-- A number as an int64: the low 64 bits with the highest one as the sign.
unfoldable pub wrap64 : ℕ → ℤ
wrap64 n =
    let low = n % 18446744073709551616 in
    if ltb max_int64 low then negsuc (18446744073709551615 - low) else pos low

-- The digits in front, and what follows them.
unfoldable pub span_digits : Text → Text × Text
span_digits [] = ([], [])
span_digits (c ∷ s) =
    let rest = span_digits s in if is_digit c then (c ∷ rest.0, rest.1) else ([], c ∷ s)

-- `strconv.ParseInt(s, 10, 64)` on digits.
abbrev parse_int : Text → Text → Result Invalid ℕ
parse_int raw s = elim (parse_uint max_int64 s) [ some n ↦ ok n | none ↦ err (bad_number raw) ]

unfoldable pub with_unit : Text → Text → Text → Result Invalid ℤ
unfolding wrap64
with_unit raw digits unit = elim (parse_int raw digits) [
  | err e ↦ err e
  | ok n ↦ elim (lookup (to_lower unit) byte_units) [
    | some multiplier ↦ ok (wrap64 (n * multiplier))
    | none ↦ err (unknown_unit raw)
  ]
]

unfoldable pub parse_bytes : Text → Result Invalid ℤ
unfolding span_digits with_unit
parse_bytes raw =
    let s = trim_space raw in
    let (digits, unit) = span_digits s in
    if is_empty s
    then ok (pos 0)
    else if is_empty unit
    then elim (parse_int raw s) [ ok n ↦ ok (pos n) | err e ↦ err e ]
    else if is_empty digits
    then err (missing_number raw)
    else with_unit raw digits unit
