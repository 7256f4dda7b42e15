-- ===== src/Prelude/Ascii.antt =====
-- What the program uses of packages `strings`, `unicode`, `net` and `strconv` on ASCII texts: case,
-- spaces, digits and host:port addresses.
use Prim.Native.Nat.{ℕ, ◌+◌, ◌*◌, ◌-◌, ◌^◌}
use mathlib.Core.Bool.{Bool, true, false, ◌&&◌, ◌||◌, not}
use mathlib.Core.List.{[], ◌∷◌}
use mathlib.Core.Option
use mathlib.Core.Option.{Option, none, some}
use airpc.Prelude.Int.{ℤ, pos, negsuc}
use airpc.Prelude.Tests.{leb, ltb, ◌==◌, if◌then◌else◌}
use airpc.Prelude.Lists.{all}
use airpc.Prelude.Strings.{Text, text_eq, is_empty, elem}

unfoldable pub lower_char : ℕ → ℕ
lower_char c = if leb b'A' c && leb c b'Z' then c + 32 else c

-- `strings.ToLower(s)`
unfoldable pub to_lower : Text → Text
unfolding lower_char
to_lower [] = []
to_lower (c ∷ s) = lower_char c ∷ to_lower s

-- `strings.EqualFold(s, t)`
unfoldable pub equal_fold : Text → Text → Bool
unfolding to_lower
equal_fold s t = text_eq (to_lower s) (to_lower t)

unfoldable pub is_space : ℕ → Bool
is_space c = leb 9 c && leb c 13 || c == 32

unfoldable pub trim_left : Text → Text
unfolding is_space
trim_left [] = []
trim_left (c ∷ s) = let rest = trim_left s in if is_space c then rest else c ∷ s

unfoldable pub trim_right : Text → Text
unfolding is_space
trim_right [] = []
trim_right (c ∷ s) = let rest = trim_right s in if is_space c && is_empty rest then [] else c ∷ rest

-- `strings.TrimSpace(s)`
unfoldable pub trim_space : Text → Text
unfolding trim_left trim_right
trim_space s = trim_left (trim_right s)

unfoldable pub is_digit : ℕ → Bool
is_digit c = leb b'0' c && leb c b'9'

-- The number that a text of digits writes, behind the digits read so far.
unfoldable pub decimal_from : ℕ → Text → ℕ
decimal_from n [] = n
decimal_from n (c ∷ s) = decimal_from (n * 10 + (c - b'0')) s

unfoldable pub decimal : Text → ℕ
unfolding decimal_from
decimal s = decimal_from 0 s

-- `strconv.ParseUint(s, 10, bits)` succeeds, for `limit` the largest number of that width.
unfoldable pub parse_uint : ℕ → Text → Option ℕ
unfolding is_digit decimal
parse_uint limit s =
    if is_empty s || not (all is_digit s) || ltb limit (decimal s) then none else some (decimal s)

-- The parts before and behind the last `c`.
unfoldable pub split_last : ℕ → Text → Option (Text × Text)
split_last c [] = none
split_last c (d ∷ s) = elim (split_last c s) [
  | some (before, after) ↦ some (d ∷ before, after)
  | none ↦ if d == c then some ([], s) else none
]

-- The part before the first `c`, and the part behind it.
unfoldable pub split_first : ℕ → Text → Option (Text × Text)
split_first c [] = none
split_first c (d ∷ s) =
    let rest = split_first c s in
    if d == c
    then some ([], s)
    else elim rest [ some (before, after) ↦ some (d ∷ before, after) | none ↦ none ]

-- The address of `[host]:port`, of which the text begins behind the opening bracket.
unfoldable pub split_bracketed : Text → Option (Text × Text)
unfolding split_first elem
split_bracketed s = elim (split_first b']' s) [
  | some (host, d ∷ port) ↦
      if not (d == b':') || elem b':' port || elem b'[' s || elem b']' port
      then none
      else some (host, port)
  | some (host, []) ↦ none
  | none ↦ none
]

-- `net.SplitHostPort(address)`
unfoldable pub split_host_port : Text → Option (Text × Text)
unfolding split_last split_bracketed elem
split_host_port [] = none
split_host_port (c ∷ s) = if c == b'[' then split_bracketed s else elim (split_last b':' (c ∷ s)) [
  | some (host, port) ↦
      if elem b':' host || elem b'[' (c ∷ s) || elem b']' (c ∷ s) then none else some (host, port)
  | none ↦ none
]

-- The integer of a sign and digits: it must fit in an int64.
unfoldable pub parse_signed : Bool → Text → Option ℤ
unfolding parse_uint
parse_signed negative s =
    if negative
    then Option.map (λ n. if n == 0 then pos 0 else negsuc (n - 1)) (parse_uint (2 ^ 63) s)
    else Option.map pos (parse_uint (2 ^ 63 - 1) s)

-- `strconv.Atoi(s)` succeeds.
unfoldable pub parse_int : Text → Option ℤ
unfolding parse_signed
parse_int [] = none
parse_int (c ∷ s) =
    if c == b'-'
    then parse_signed true s
    else if c == b'+'
    then parse_signed false s
    else parse_signed false (c ∷ s)
