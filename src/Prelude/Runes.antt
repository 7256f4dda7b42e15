-- ===== src/Prelude/Runes.antt =====
-- The rune loop of Go, `for _, r := range s`: UTF-8 decoding as the language defines it (package
-- unicode/utf8), with U+FFFD of width 1 for a byte that starts no valid encoding.
use Prim.Native.Nat.{ℕ, zero, suc, ◌+◌, ◌-◌, ◌*◌, ◌≤◌, ◌<◌}
use mathlib.Core.Path.{◌≡◌, refl}
use mathlib.Core.Bool.{Bool, true, false, ◌&&◌, ◌||◌}
use mathlib.Core.Logic.{inl, inr, ◌↔◌, ◌⊎◌}
use mathlib.Core.List.{List, [], ◌∷◌}
use native.Mathlib.Omega.{arith}
use airpc.Prelude.Tests.{leb, ltb, ◌==◌, if◌then◌else◌, Bool-cases, and-eq-true, lt→ltb}
use airpc.Prelude.Lists.{all, All}
use airpc.Prelude.Strings.{Text, text, elem}

-- The rune and the number of bytes of a failed decoding.
abbrev broken : ℕ × ℕ
broken = (0xFFFD, 1)

is_continuation : ℕ → Bool
is_continuation b = leb 0x80 b && leb b 0xBF

-- The second byte has a narrower range after 0xE0, 0xED, 0xF0 and 0xF4.
second_low : ℕ → ℕ
second_low b = if b == 0xE0 then 0xA0 else if b == 0xF0 then 0x90 else 0x80

second_high : ℕ → ℕ
second_high b = if b == 0xED then 0x9F else if b == 0xF4 then 0x8F else 0xBF

is_second : ℕ → ℕ → Bool
unfolding second_low second_high
is_second b c = leb (second_low b) c && leb c (second_high b)

decode_two : ℕ → Text → ℕ × ℕ
unfolding is_continuation
decode_two b (c ∷ _) = if is_continuation c then ((b - 0xC0) * 0x40 + (c - 0x80), 2) else broken
decode_two b [] = broken

decode_three : ℕ → Text → ℕ × ℕ
unfolding is_continuation is_second
decode_three b (c ∷ d ∷ _) =
    if is_second b c && is_continuation d
    then ((b - 0xE0) * 0x1000 + (c - 0x80) * 0x40 + (d - 0x80), 3)
    else broken
decode_three b (c ∷ []) = broken
decode_three b [] = broken

decode_four : ℕ → Text → ℕ × ℕ
unfolding is_continuation is_second
decode_four b (c ∷ d ∷ e ∷ _) =
    if is_second b c && is_continuation d && is_continuation e
    then ((b - 0xF0) * 0x40000 + (c - 0x80) * 0x1000 + (d - 0x80) * 0x40 + (e - 0x80), 4)
    else broken
decode_four b (c ∷ d ∷ []) = broken
decode_four b (c ∷ []) = broken
decode_four b [] = broken

-- The first rune of `b ∷ s` and its width.
decode_rune : ℕ → Text → ℕ × ℕ
unfolding decode_two decode_three decode_four
decode_rune b s =
    if ltb b 0x80
    then (b, 1)
    else if ltb b 0xC2
    then broken
    else if ltb b 0xE0
    then decode_two b s
    else if ltb b 0xF0
    then decode_three b s
    else if ltb b 0xF5
    then decode_four b s
    else broken

-- The number counts the bytes that the rune before has taken up.
runes_from : ℕ → Text → List ℕ
unfolding decode_rune
runes_from k [] = []
runes_from (suc k) (b ∷ s) = runes_from k s
runes_from zero (b ∷ s) = (decode_rune b s).0 ∷ runes_from ((decode_rune b s).1 - 1) s

unfoldable pub runes : Text → List ℕ
unfolding runes_from
runes s = runes_from 0 s

euro_sign :
    runes (0x41 ∷ 0xE2 ∷ 0x82 ∷ 0xAC ∷ 0x42 ∷ 0xFF ∷ []) ≡ 0x41 ∷ 0x20AC ∷ 0x42 ∷ 0xFFFD ∷ []
unfolding runes
euro_sign = refl

decode_two_wide : (b : ℕ) (s : Text) → 0xC2 ≤ b → 0x80 ≤ (decode_two b s).0
unfolding decode_two
decode_two_wide b [] h = omega arith
decode_two_wide b (c ∷ s) h = ground arith

decode_three_wide : (b : ℕ) (s : Text) → 0xE0 ≤ b → 0x80 ≤ (decode_three b s).0
unfolding decode_three
decode_three_wide b [] h = omega arith
decode_three_wide b (c ∷ []) h = omega arith
decode_three_wide b (c ∷ d ∷ s) h = ground arith

decode_four_wide : (b : ℕ) (s : Text) → 0xF0 ≤ b → 0x80 ≤ (decode_four b s).0
unfolding decode_four
decode_four_wide b [] h = omega arith
decode_four_wide b (c ∷ []) h = omega arith
decode_four_wide b (c ∷ d ∷ []) h = omega arith
decode_four_wide b (c ∷ d ∷ e ∷ s) h = ground arith

-- A byte that is not ASCII starts a rune that is not ASCII.
decode_rune_wide : (b : ℕ) (s : Text) → 0x80 ≤ b → 0x80 ≤ (decode_rune b s).0
unfolding decode_rune
decode_rune_wide b s h =
    ground (arith, decode_two_wide b s, decode_three_wide b s, decode_four_wide b s)

decode_rune_ascii : (b : ℕ) (s : Text) → b < 0x80 → decode_rune b s ≡ (b, 1)
unfolding decode_rune
decode_rune_ascii b s h = rw (lt→ltb b 0x80 h)

wide_refused : (p : ℕ → Bool) (c : ℕ) → ((d : ℕ) → p d ≡ true → d < 0x80) → 0x80 ≤ c → p c ≡ false
wide_refused p c ascii h = ground (arith, ascii c)

-- A test that only ASCII passes holds of all runes exactly if it holds of all bytes.
pub all-runes :
    (p : ℕ → Bool) (s : Text) → ((c : ℕ) → p c ≡ true → c < 0x80) → all p (runes s) ≡ all p s
unfolding runes
all-runes p [] ascii = refl
all-runes p (b ∷ s) ascii = elim (Bool-cases (ltb b 0x80)) [
  | inl narrow ↦
      let e = decode_rune_ascii b s (ground arith) in let ih = all-runes p s ascii in rw e (rw ih)
  | inr wide ↦ rw (
    wide_refused p b ascii (ground arith),
    wide_refused p (decode_rune b s).0 ascii (decode_rune_wide b s (ground arith)),
  )
]

-- A letter, a digit, `_` or `-`: the test of every name loop of the program.
unfoldable pub is_word : ℕ → Bool
is_word c =
    leb b'a' c && leb c b'z'
    || leb b'A' c && leb c b'Z'
    || leb b'0' c && leb c b'9'
    || c == b'_'
    || c == b'-'

abbrev pub IsWord : ℕ → Type 0
IsWord c =
    ((b'a' ≤ c) × (c ≤ b'z'))
    ⊎ ((b'A' ≤ c) × (c ≤ b'Z'))
    ⊎ ((b'0' ≤ c) × (c ≤ b'9'))
    ⊎ (c ≡ b'_')
    ⊎ (c ≡ b'-')

pub is_word-lt : (c : ℕ) → is_word c ≡ true → c < 0x80
unfolding is_word
is_word-lt c h = ground arith

pub is_word_iff : (c : ℕ) → (is_word c ≡ true) ↔ IsWord c
unfolding is_word
is_word_iff c = (λ h. ground arith, λ h. ground arith)

all-IsWord_iff : (s : Text) → (all is_word s ≡ true) ↔ All IsWord s
all-IsWord_iff [] = (λ h. tt, λ h. refl)
all-IsWord_iff (c ∷ s) = (
  λ h. let parts = and-eq-true _ _ h in ((is_word_iff c).0 parts.0, (all-IsWord_iff s).0 parts.1),
  λ h. rw ((is_word_iff c).1 h.0, (all-IsWord_iff s).1 h.1),
)

-- The rune loop over a text accepts exactly the texts whose bytes are all word bytes.
pub all-is_word-runes_iff : (s : Text) → (all is_word (runes s) ≡ true) ↔ All IsWord s
all-is_word-runes_iff s = rw (all-runes is_word s is_word-lt) (all-IsWord_iff s)

-- `isTokenChar` of internal/config/config.go, and the same test inlined in
-- internal/protocol/httpunary/envelope.go: the characters of an HTTP token.
unfoldable pub is_token_char : ℕ → Bool
is_token_char c =
    leb b'a' c && leb c b'z'
    || leb b'A' c && leb c b'Z'
    || leb b'0' c && leb c b'9'
    || elem c (text "!#$%&'*+-.^_`|~")

-- A letter, a digit or one of the fifteen marks.
abbrev pub IsTokenChar : ℕ → Type 0
IsTokenChar c =
    ((b'a' ≤ c) × (c ≤ b'z'))
    ⊎ ((b'A' ≤ c) × (c ≤ b'Z'))
    ⊎ ((b'0' ≤ c) × (c ≤ b'9'))
    ⊎ (elem c (text "!#$%&'*+-.^_`|~") ≡ true)

pub is_token_char-lt : (c : ℕ) → is_token_char c ≡ true → c < 0x80
unfolding is_token_char elem
is_token_char-lt c h = ground arith

-- A Boolean test of all elements, as a predicate.
pub all_iff : (p : ℕ → Bool) (s : Text) → (all p s ≡ true) ↔ All (λ c. p c ≡ true) s
all_iff p [] = (λ h. tt, λ h. refl)
all_iff p (c ∷ s) = (
  λ h. let parts = and-eq-true _ _ h in (parts.0, (all_iff p s).0 parts.1),
  λ h. rw (h.0, (all_iff p s).1 h.1),
)
