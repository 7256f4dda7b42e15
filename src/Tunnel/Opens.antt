-- ===== src/Tunnel/Opens.antt =====
-- The open envelopes that `OpenRequest.Validate` and `OpenResponse.Validate` of
-- internal/protocol/tunnel/envelope.go accept, described apart from the code.
use airpc.Prelude.{
  ℕ, zero, suc, ◌≡◌, ◌↔◌, ◌⊎◌, inl, inr, refl, true, false, [], ◌∷◌, ◌||◌, Text, has_prefix, ℤ, pos,
  negsuc, leb_ℤ, ltb_ℤ, ok, arith, Bool-cases,
}
use airpc.Tunnel.{
  OpenRequest, OpenResponse, breaks_and_hash, open_path_refused, valid_token, validate_open_request,
  validate_open_response,
}
use airpc.Tunnel.Frames.{
  IsToken, IsKind, IsMessage, Avoids, valid_token_iff, contains_any_iff, error_text_refused_iff,
  validate_route_and_kind_iff,
}

-- No path, or an absolute one without line breaks and fragment.
abbrev pub IsOpenPath : Text → Type 0
IsOpenPath p = (p ≡ []) ⊎ ((rest : Text) × (p ≡ b'/' ∷ rest) × Avoids breaks_and_hash p)

open_path_refused_iff : (p : Text) → (open_path_refused p ≡ false) ↔ IsOpenPath p
unfolding open_path_refused has_prefix
open_path_refused_iff [] = (λ h. inl refl, λ h. refl)
open_path_refused_iff (c ∷ p) =
    let i = contains_any_iff (c ∷ p) breaks_and_hash in
    (
      λ h. inr (p, ground arith, i.0 (ground arith)),
      λ h. elim h [ inl e ↦ absurd (cc) | inr (rest, e, a) ↦ ground (arith, i.1 a) ],
    )

pub record WellFormedRequest (r : OpenRequest) : Type 0 where
  pub version_one : r.version ≡ pos 1
  pub request_token : IsToken r.request_id
  pub session_token : IsToken r.session_id
  pub route_token : IsToken r.route
  pub known : IsKind r.kind
  pub path_plain : IsOpenPath r.path
  pub deadline : (n : ℕ) × (r.deadline_unix_ms ≡ pos (suc n))

deadline_split :
    (d : ℤ) → (leb_ℤ d (pos 0) || ltb_ℤ d (pos 0)) ≡ false → (n : ℕ) × (d ≡ pos (suc n))
deadline_split (pos zero) h = absurd (ground arith)
deadline_split (pos (suc n)) h = (n, refl)
deadline_split (negsuc n) h = absurd (ground arith)

-- `OpenRequest.Validate` accepts exactly the well-formed requests.
pub validate_open_request_iff :
    (r : OpenRequest) → (validate_open_request r ≡ ok tt) ↔ WellFormedRequest r
unfolding validate_open_request
validate_open_request_iff r = (
  λ h.
      let both = (validate_route_and_kind_iff r.route r.kind).0 (ground arith) in
      record {
        version_one = ground arith;
        request_token = (valid_token_iff r.request_id).0 (ground arith);
        session_token = (valid_token_iff r.session_id).0 (ground arith);
        route_token = both.0;
        known = both.1;
        path_plain = (open_path_refused_iff r.path).0 (ground arith);
        deadline = deadline_split r.deadline_unix_ms (ground arith);
      },
  λ w. ground (
    arith,
    w.version_one,
    (valid_token_iff r.request_id).1 w.request_token,
    (valid_token_iff r.session_id).1 w.session_token,
    (validate_route_and_kind_iff r.route r.kind).1 (w.route_token, w.known),
    (open_path_refused_iff r.path).1 w.path_plain,
    w.deadline.1,
  ),
)

-- An accepted open names its connector, a rejected one its reason.
pub data Verdict (r : OpenResponse) : Type 0 where
  accepts : r.accepted ≡ true → IsToken r.connector_id → Verdict r
  rejects : r.accepted ≡ false → IsMessage r.error → Verdict r

pub record WellFormedResponse (r : OpenResponse) : Type 0 where
  pub version_one : r.version ≡ pos 1
  pub request_token : IsToken r.request_id
  pub verdict : Verdict r

Verdict-of : (r : OpenResponse) → validate_open_response r ≡ ok tt → Verdict r
unfolding validate_open_response
Verdict-of r h = elim (Bool-cases r.accepted) [
  | inl taken ↦ accepts taken ((valid_token_iff r.connector_id).0 (ground arith))
  | inr refused ↦ rejects refused ((error_text_refused_iff r.error).0 (ground arith))
]

Verdict-accepted :
    (r : OpenResponse)
    → r.version ≡ pos 1
    → valid_token r.request_id ≡ true
    → Verdict r
    → validate_open_response r ≡ ok tt
unfolding validate_open_response
Verdict-accepted r v t (accepts e c) = ground (arith, (valid_token_iff r.connector_id).1 c)
Verdict-accepted r v t (rejects e m) = ground (arith, (error_text_refused_iff r.error).1 m)

-- `OpenResponse.Validate` accepts exactly the well-formed responses.
pub validate_open_response_iff :
    (r : OpenResponse) → (validate_open_response r ≡ ok tt) ↔ WellFormedResponse r
unfolding validate_open_response
validate_open_response_iff r = (
  λ h. record {
    version_one = ground arith;
    request_token = (valid_token_iff r.request_id).0 (ground arith);
    verdict = Verdict-of r h;
  },
  λ w.
      Verdict-accepted r w.version_one ((valid_token_iff r.request_id).1 w.request_token) w.verdict,
)
