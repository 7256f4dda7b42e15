-- ===== src/Observer/Labels.antt =====
-- The labels of the gRPC metrics in internal/grpcobs/observer.go: which methods and which status codes
-- pass as they are.
use airpc.Prelude.{
  ℕ, zero, suc, ◌-◌, ◌^◌, ◌≤◌, ◌<◌, ◌≡◌, ◌↔◌, ◌⊎◌, inl, inr, refl, true, false, not, some, [], ◌∷◌,
  ◌++◌, Text, text, length, all, All, leb, is_empty, arith, Bool-cases, Option-cases, split_first,
  parse_int, parse_signed, parse_uint, decimal, decimal_from, is_digit, pos, negsuc, all_iff, elem,
}
use airpc.Observer.{method_pattern, is_service_char, is_method_char, status_code}

-- A method is a service and a name behind a slash each, of bounded lengths.
pub record IsMethod (path : Text) : Type 0 where
  pub service : Text
  pub name : Text
  pub path_is : path ≡ b'/' ∷ service ++ b'/' ∷ name
  pub service_some : 0 < length service
  pub service_bound : length service ≤ 200
  pub service_chars : All (λ c. is_service_char c ≡ true) service
  pub name_some : 0 < length name
  pub name_bound : length name ≤ 100
  pub name_chars : All (λ c. is_method_char c ≡ true) name

-- The parts at the first `c` make up the text.
split_first_parts : (c : ℕ) (s a b : Text) → split_first c s ≡ some (a, b) → s ≡ a ++ c ∷ b
unfolding split_first
split_first_parts c [] a b h = absurd (ground arith)
split_first_parts c (d ∷ s) a b h = elim (Option-cases (split_first c s)) [
  | inl without ↦ ground (arith, without)
  | inr (parts, found) ↦ ground (arith, split_first_parts c s parts.0 parts.1)
]

-- A text without `c` is all that stands before the first `c`.
split_first-append :
    (c : ℕ) (a b : Text) → elem c a ≡ false → split_first c (a ++ c ∷ b) ≡ some (a, b)
unfolding split_first elem
split_first-append c [] b h = ground arith
split_first-append c (d ∷ a) b h = ground (arith, split_first-append c a b)

no_slash : (s : Text) → All (λ c. is_service_char c ≡ true) s → elem b'/' s ≡ false
unfolding elem is_service_char
no_slash [] h = refl
no_slash (c ∷ s) h = ground (arith, no_slash s h.1)

length_some : (s : Text) → (not (is_empty s) ≡ true) ↔ (0 < length s)
length_some [] = (λ h. ground arith, λ h. ground arith)
length_some (c ∷ s) = (λ h. omega arith, λ h. refl)

IsMethod-pattern : (path : Text) → IsMethod path → method_pattern path ≡ true
unfolding method_pattern
IsMethod-pattern path m =
    let found = split_first-append b'/' m.service m.name (no_slash m.service m.service_chars) in
    rw (m.path_is, found)
      (ground (
        arith,
        (length_some m.service).1,
        (length_some m.name).1,
        (all_iff is_service_char m.service).1 m.service_chars,
        (all_iff is_method_char m.name).1 m.name_chars,
      ))

pattern-IsMethod : (path : Text) → method_pattern path ≡ true → IsMethod path
unfolding method_pattern
pattern-IsMethod [] h = absurd (ground arith)
pattern-IsMethod (c ∷ s) h = elim (Option-cases (split_first b'/' s)) [
  | inl without ↦ absurd (ground (arith, without))
  | inr ((service, name), found) ↦ record {
    service = service;
    name = name;
    path_is = ground (arith, split_first_parts b'/' s service name found);
    service_some = (length_some service).0 (ground arith);
    service_bound = ground arith;
    service_chars = (all_iff is_service_char service).0 (ground arith);
    name_some = (length_some name).0 (ground arith);
    name_bound = ground arith;
    name_chars = (all_iff is_method_char name).0 (ground arith);
  }
]

-- A path is a label of its own exactly if it is a method.
pub method_pattern_iff : (path : Text) → (method_pattern path ≡ true) ↔ IsMethod path
method_pattern_iff path = (pattern-IsMethod path, IsMethod-pattern path)

abbrev pub zeros : ℕ → Text
zeros zero = []
zeros (suc n) = b'0' ∷ zeros n

padded_decimal : (k d : ℕ) → decimal_from 0 (zeros k ++ d ∷ []) ≡ d - b'0'
unfolding decimal_from
padded_decimal zero d = omega arith
padded_decimal (suc k) d = padded_decimal k d

padded_digits : (k d : ℕ) → is_digit d ≡ true → all is_digit (zeros k ++ d ∷ []) ≡ true
unfolding is_digit
padded_digits zero d h = ground arith
padded_digits (suc k) d h = padded_digits k d h

padded_some : (k d : ℕ) → is_empty (zeros k ++ d ∷ []) ≡ false
padded_some zero d = refl
padded_some (suc k) d = refl

padded_uint :
    (limit k d : ℕ)
    → 9 ≤ limit
    → is_digit d ≡ true
    → parse_uint limit (zeros k ++ d ∷ []) ≡ some (d - b'0')
unfolding parse_uint decimal is_digit
padded_uint limit k d h g = ground (arith, padded_decimal k d, padded_digits k d g, padded_some k d)

padded_signed :
    (k d : ℕ) → is_digit d ≡ true → parse_signed false (zeros k ++ d ∷ []) ≡ some (pos (d - b'0'))
unfolding parse_signed
padded_signed k d h = rw (padded_uint (2 ^ 63 - 1) k d (omega arith) h) refl

padded_int : (k d : ℕ) → is_digit d ≡ true → parse_int (zeros k ++ d ∷ []) ≡ some (pos (d - b'0'))
unfolding parse_int is_digit
padded_int zero d h = ground (arith, padded_signed zero d h)
padded_int (suc k) d h = padded_signed (suc k) d h

-- A status with any number of zeros before it is a label of its own: the codes are not 18 labels at most.
pub status_code_padded :
    (k d : ℕ) → is_digit d ≡ true → status_code (zeros k ++ d ∷ []) ≡ zeros k ++ d ∷ []
unfolding status_code is_digit
status_code_padded k d h = rw (padded_int k d h, status_code) (ground arith)

-- What passes as a code is read as a number from 0 to 16.
pub status_code_known :
    (value : Text)
    → (status_code value ≡ text "invalid")
      ⊎ ((n : ℕ) × (parse_int value ≡ some (pos n)) × (n ≤ 16) × (status_code value ≡ value))
unfolding status_code
status_code_known value = elim (Option-cases (parse_int value)) [
  | inl unread ↦ inl (rw (unread, status_code) refl)
  | inr (negsuc n, read) ↦ inl (ground (arith, read))
  | inr (pos n, read) ↦ elim (Bool-cases (leb n 16)) [
    | inl small ↦ inr (n, read, ground arith, ground (arith, read))
    | inr large ↦ inl (ground (arith, read))
  ]
]
