-- ===== src/Unary/Requests.antt =====
-- The call requests that internal/protocol/httpunary/envelope.go accepts, described apart from the
-- code.
use airpc.Prelude.{
  ℕ, zero, suc, ◌≡◌, ◌≢◌, ◌↔◌, ◌⊎◌, refl, true, false, List, [], ◌∷◌, Text, text, text_eq_iff,
  is_empty, has_prefix, all-is_word-runes_iff, is_token_char, all_iff, All, ℤ, pos, negsuc, leb_ℤ,
  ok, arith, and-eq-true,
}
use airpc.Tunnel.{line_breaks, breaks_and_hash}
use airpc.Tunnel.Frames.{IsToken, Avoids, contains_any_iff}
use airpc.Unary.{
  Header, Request, valid_token, validate_route, validate_path, validate_values, validate_headers,
  validate_request,
}

-- A token of RFC 7230, over the characters that the code lists.
abbrev pub IsHttpToken : Text → Type 0
IsHttpToken s = (s ≢ []) × All (λ c. is_token_char c ≡ true) s

pub valid_token_iff : (s : Text) → (valid_token s ≡ true) ↔ IsHttpToken s
unfolding valid_token
valid_token_iff [] = ground arith
valid_token_iff (c ∷ s) = (
  λ h. (λ q. cc, (all_iff is_token_char (c ∷ s)).0 (and-eq-true _ _ h).0),
  λ h. rw ((all_iff is_token_char (c ∷ s)).1 h.1),
)

pub validate_route_iff : (r : Text) → (validate_route r ≡ ok tt) ↔ IsToken r
unfolding validate_route
validate_route_iff [] = ground arith
validate_route_iff (c ∷ r) =
    let i = all-is_word-runes_iff (c ∷ r) in (λ h. (λ q. cc, i.0 (ground arith)), λ h. rw (i.1 h.1))

-- An absolute path without line breaks and fragment.
abbrev pub IsPath : Text → Type 0
IsPath p = (rest : Text) × (p ≡ b'/' ∷ rest) × Avoids breaks_and_hash p

pub validate_path_iff : (p : Text) → (validate_path p ≡ ok tt) ↔ IsPath p
unfolding validate_path has_prefix
validate_path_iff [] = (λ h. absurd (ground arith), λ h. absurd (ground (arith, h.1)))
validate_path_iff (c ∷ p) =
    let i = contains_any_iff (c ∷ p) breaks_and_hash in
    (λ h. (p, ground arith, i.0 (ground arith)), λ h. ground (arith, h.1, i.1 h.2))

abbrev pub HasPlainValues : List Text → Type 0
HasPlainValues values = All (λ v. Avoids line_breaks v) values

abbrev pub HasPlainHeaders : Header → Type 0
HasPlainHeaders headers = All (λ h. IsHttpToken h.0 × HasPlainValues h.1) headers

validate_values_iff :
    (n : Text) (vs : List Text) → (validate_values n vs ≡ ok tt) ↔ HasPlainValues vs
unfolding validate_values
validate_values_iff n [] = (λ h. tt, λ h. refl)
validate_values_iff n (v ∷ vs) =
    let i = contains_any_iff v line_breaks in
    (
      λ h. (i.0 (ground arith), (validate_values_iff n vs).0 (ground arith)),
      λ h. rw (i.1 h.0, (validate_values_iff n vs).1 h.1),
    )

pub validate_headers_iff : (hs : Header) → (validate_headers hs ≡ ok tt) ↔ HasPlainHeaders hs
unfolding validate_headers
validate_headers_iff [] = (λ h. tt, λ h. refl)
validate_headers_iff ((n, vs) ∷ hs) = (
  λ h. (
    ((valid_token_iff n).0 (ground arith), (validate_values_iff n vs).0 (ground arith)),
    (validate_headers_iff hs).0 (ground arith),
  ),
  λ h. ground (
    arith,
    (valid_token_iff n).1 h.0.0,
    (validate_values_iff n vs).1 h.0.1,
    (validate_headers_iff hs).1 h.1,
  ),
)

pub record WellFormed (r : Request) : Type 0 where
  pub version_one : r.version ≡ pos 1
  pub identified : r.request_id ≢ []
  pub route_token : IsToken r.route
  pub deadline : (n : ℕ) × (r.deadline_unix_ms ≡ pos (suc n))
  pub method_token : IsHttpToken r.method
  pub scheme_known : (r.scheme ≡ text "http") ⊎ (r.scheme ≡ text "https")
  pub authority_given : r.authority ≢ []
  pub authority_plain : Avoids line_breaks r.authority
  pub path_plain : IsPath r.path
  pub headers_plain : HasPlainHeaders r.headers

deadline_split : (d : ℤ) → leb_ℤ d (pos 0) ≡ false → (n : ℕ) × (d ≡ pos (suc n))
deadline_split (pos zero) h = absurd (ground arith)
deadline_split (pos (suc n)) h = (n, refl)
deadline_split (negsuc n) h = absurd (ground arith)

pub is_empty_iff : (s : Text) → (is_empty s ≡ false) ↔ (s ≢ [])
is_empty_iff [] = ground arith
is_empty_iff (c ∷ s) = (λ h q. cc, λ h. refl)

-- `Request.Validate` accepts exactly the well-formed requests.
pub validate_request_iff : (r : Request) → (validate_request r ≡ ok tt) ↔ WellFormed r
unfolding validate_request
validate_request_iff r = (
  λ h. record {
    version_one = ground arith;
    identified = (is_empty_iff r.request_id).0 (ground arith);
    route_token = (validate_route_iff r.route).0 (ground arith);
    deadline = deadline_split r.deadline_unix_ms (ground arith);
    method_token = (valid_token_iff r.method).0 (ground arith);
    scheme_known =
        ground (arith, text_eq_iff r.scheme (text "http"), text_eq_iff r.scheme (text "https"));
    authority_given = (is_empty_iff r.authority).0 (ground arith);
    authority_plain = (contains_any_iff r.authority line_breaks).0 (ground arith);
    path_plain = (validate_path_iff r.path).0 (ground arith);
    headers_plain = (validate_headers_iff r.headers).0 (ground arith);
  },
  λ w. ground (
    arith,
    w.version_one,
    (is_empty_iff r.request_id).1 w.identified,
    (validate_route_iff r.route).1 w.route_token,
    w.deadline.1,
    (is_empty_iff r.method).1 w.method_token.0,
    (valid_token_iff r.method).1 w.method_token,
    w.scheme_known,
    text_eq_iff r.scheme (text "http"),
    text_eq_iff r.scheme (text "https"),
    (is_empty_iff r.authority).1 w.authority_given,
    (contains_any_iff r.authority line_breaks).1 w.authority_plain,
    (validate_path_iff r.path).1 w.path_plain,
    (validate_headers_iff r.headers).1 w.headers_plain,
  ),
)
