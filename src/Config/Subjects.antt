-- ===== src/Config/Subjects.antt =====
-- What the tokens and subjects of internal/config/config.go promise.
use airpc.Prelude.{
  ℕ, ◌≤◌, ◌<◌, ◌≡◌, ◌≢◌, ◌↔◌, refl, true, List, [], ◌∷◌, Text, runes, is_word, IsWord,
  all-is_word-runes_iff, all-runes, is_token_char, is_token_char-lt, all, All, length, ok, err,
  arith,
}
use airpc.Config.Errors.{too_long}
use airpc.Config.Tokens.{check_runes, validate_subject_token, header_runes, valid_header_name}
use airpc.Tunnel
use airpc.Tunnel.Frames
use airpc.Tunnel.Frames.{IsToken}
use airpc.Unary
use airpc.Unary.Requests

-- The documented token: letters, digits, `_` and `-`, at most 128 of them.
abbrev pub IsSubjectToken : Text → Type 0
IsSubjectToken s = (s ≢ []) × (length s ≤ 128) × All IsWord s

check_runes_iff :
    (field : Text) (rs : List ℕ) → (check_runes field rs ≡ ok tt) ↔ (all is_word rs ≡ true)
unfolding check_runes is_word
check_runes_iff field [] = (λ h. refl, λ h. refl)
check_runes_iff field (r ∷ rs) = (
  λ h. ground (arith, (check_runes_iff field rs).0),
  λ h. ground (arith, (check_runes_iff field rs).1),
)

-- `ValidateSubjectToken` accepts exactly the documented tokens.
pub validate_subject_token_iff :
    (field s : Text) → (validate_subject_token field s ≡ ok tt) ↔ IsSubjectToken s
unfolding validate_subject_token
validate_subject_token_iff field [] = ground arith
validate_subject_token_iff field (c ∷ s) =
    let i = check_runes_iff field (runes (c ∷ s)) in
    let w = all-is_word-runes_iff (c ∷ s) in
    (
      λ h. ((λ q. cc), ground arith, w.0 (i.0 (ground arith))),
      λ h. ground (arith, i.1 (w.1 h.2), h.1),
    )

-- A name that the configuration accepts is accepted by both envelope formats.
pub subject_token_accepted :
    (field s : Text)
    → validate_subject_token field s ≡ ok tt
    → (Tunnel.valid_token s ≡ true) × (Unary.validate_route s ≡ ok tt)
subject_token_accepted field s h =
    let t = (validate_subject_token_iff field s).0 h in
    ((Frames.valid_token_iff s).1 (t.0, t.2), (Requests.validate_route_iff s).1 (t.0, t.2))

-- The envelope formats do not know the limit of 128 characters: a longer token, which the
-- configuration refuses, passes their validation.
pub long_token_accepted :
    (field s : Text)
    → All IsWord s
    → 128 < length s
    → (validate_subject_token field s ≡ err (too_long field))
      × (Tunnel.valid_token s ≡ true)
      × (Unary.validate_route s ≡ ok tt)
unfolding validate_subject_token
long_token_accepted field [] w long = absurd (omega arith)
long_token_accepted field (c ∷ s) w long =
    let t : IsToken (c ∷ s) = ((λ q. cc), w) in
    (ground arith, (Frames.valid_token_iff (c ∷ s)).1 t, (Requests.validate_route_iff (c ∷ s)).1 t)

header_runes_lem : (rs : List ℕ) → header_runes rs ≡ all is_token_char rs
unfolding header_runes
header_runes_lem [] = refl
header_runes_lem (r ∷ rs) = ground (arith, header_runes_lem rs, is_token_char-lt r)

-- The header names that a route may forward are exactly those that the call envelope accepts.
pub valid_header_name-valid_token : (s : Text) → valid_header_name s ≡ Unary.valid_token s
unfolding valid_header_name Unary.valid_token
valid_header_name-valid_token [] = refl
valid_header_name-valid_token (c ∷ s) =
    ground
      (arith, header_runes_lem (runes (c ∷ s)), all-runes is_token_char (c ∷ s) is_token_char-lt)
