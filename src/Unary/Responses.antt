-- ===== src/Unary/Responses.antt =====
-- The call responses that internal/protocol/httpunary/envelope.go accepts, and the coding of both
-- envelopes.
use airpc.Prelude.{
  ℕ, ◌≤◌, ◌≡◌, ◌≢◌, ◌↔◌, inl, inr, refl, true, false, ◌||◌, [], ◌∷◌, none, some, Text, is_empty, ℤ,
  pos, negsuc, ltb_ℤ, ok, arith, Bool-cases, Option-cases, if◌then◌else◌,
}
use airpc.Codec.{Codec, RoundTrips}
use airpc.Tunnel.{line_breaks}
use airpc.Tunnel.Frames.{Avoids, contains_any_iff}
use airpc.Unary
use airpc.Unary.{
  Request, Response, Invalid, not_a_request, not_a_response, valid_token, validate_headers,
  validate_error, validate_stream, validate_reply, validate_response, validate_request,
  new_error_response, encode, decode, encode_request, decode_request, encode_response,
  decode_response,
}
use airpc.Unary.Requests.{
  IsHttpToken, HasPlainHeaders, valid_token_iff, validate_headers_iff, is_empty_iff, WellFormed,
  validate_request_iff,
}

abbrev pub IsPlainError : Unary.Error → Type 0
IsPlainError e = IsHttpToken e.code × Avoids line_breaks e.message

validate_error_iff : (e : Unary.Error) → (validate_error e ≡ ok tt) ↔ IsPlainError e
unfolding validate_error
validate_error_iff e = (
  λ h. (
    (valid_token_iff e.code).0 (ground arith),
    (contains_any_iff e.message line_breaks).0 (ground arith),
  ),
  λ h. ground (
    arith,
    (is_empty_iff e.code).1 h.0.0,
    (valid_token_iff e.code).1 h.0,
    (contains_any_iff e.message line_breaks).1 h.1,
  ),
)

-- An inline body, or the session that streams it, on a named connector and with no inline body.
pub data BodyPlace (r : Response) : Type 0 where
  inline : r.stream_session_id ≡ [] → BodyPlace r
  streamed :
      IsHttpToken r.stream_session_id → IsHttpToken r.connector_id → r.body ≡ [] → BodyPlace r

pub record IsReply (r : Response) : Type 0 where
  pub status : (n : ℕ) × (r.status ≡ pos n) × (100 ≤ n) × (n ≤ 999)
  pub place : BodyPlace r
  pub headers_plain : HasPlainHeaders r.headers

-- A failed call reports its error, any other has a status, headers and one body.
pub data Outcome (r : Response) : Type 0 where
  failed : (e : Unary.Error) → r.error ≡ some e → IsPlainError e → Outcome r
  replied : r.error ≡ none → IsReply r → Outcome r

pub record WellFormedResponse (r : Response) : Type 0 where
  pub version_one : r.version ≡ pos 1
  pub identified : r.request_id ≢ []
  pub outcome : Outcome r

status_split :
    (s : ℤ)
    → (ltb_ℤ s (pos 100) || ltb_ℤ (pos 999) s) ≡ false
    → (n : ℕ) × (s ≡ pos n) × (100 ≤ n) × (n ≤ 999)
status_split (pos n) h = (n, refl, ground arith, ground arith)
status_split (negsuc n) h = absurd (ground arith)

is_empty_eq : (s : Text) → is_empty s ≡ true → s ≡ []
is_empty_eq [] h = refl
is_empty_eq (c ∷ s) h = absurd (ground arith)

-- The part of the checks on where the body is.
place_sound :
    (r : Response)
    → (if is_empty r.stream_session_id then ok tt else validate_stream r) ≡ ok tt
    → BodyPlace r
unfolding validate_stream
place_sound r h = elim (Bool-cases (is_empty r.stream_session_id)) [
  | inl e ↦ inline (is_empty_eq r.stream_session_id e)
  | inr e ↦
      streamed ((valid_token_iff r.stream_session_id).0 (ground arith))
        ((valid_token_iff r.connector_id).0 (ground arith)) (is_empty_eq r.body (ground arith))
]

place_complete :
    (r : Response)
    → BodyPlace r
    → (if is_empty r.stream_session_id then ok tt else validate_stream r) ≡ ok tt
unfolding validate_stream
place_complete r (inline e) = rw e refl
place_complete r (streamed t k b) =
    rw
      (
        (is_empty_iff r.stream_session_id).1 t.0,
        (valid_token_iff r.stream_session_id).1 t,
        (valid_token_iff r.connector_id).1 k,
        b,
      )
      refl

validate_reply_iff : (r : Response) → (validate_reply r ≡ ok tt) ↔ IsReply r
unfolding validate_reply
validate_reply_iff r = (
  λ h. record {
    status = status_split r.status (ground arith);
    place = place_sound r (ground arith);
    headers_plain = (validate_headers_iff r.headers).0 (ground arith);
  },
  λ w. ground (
    arith,
    w.status.1,
    w.status.2,
    w.status.3,
    place_complete r w.place,
    (validate_headers_iff r.headers).1 w.headers_plain,
  ),
)

outcome_sound : (r : Response) → validate_response r ≡ ok tt → Outcome r
unfolding validate_response
outcome_sound r h = elim (Option-cases r.error) [
  | inl e ↦ replied e ((validate_reply_iff r).0 (ground arith))
  | inr (x, e) ↦ failed x e ((validate_error_iff x).0 (ground arith))
]

outcome_complete :
    (r : Response) → r.version ≡ pos 1 → r.request_id ≢ [] → Outcome r → validate_response r ≡ ok tt
unfolding validate_response
outcome_complete r v i (failed x e p) =
    ground (arith, (is_empty_iff r.request_id).1 i, (validate_error_iff x).1 p)
outcome_complete r v i (replied e p) =
    ground (arith, (is_empty_iff r.request_id).1 i, (validate_reply_iff r).1 p)

-- `Response.Validate` accepts exactly the well-formed responses.
pub validate_response_iff : (r : Response) → (validate_response r ≡ ok tt) ↔ WellFormedResponse r
unfolding validate_response
validate_response_iff r = (
  λ h. record {
    version_one = ground arith;
    identified = (is_empty_iff r.request_id).0 (ground arith);
    outcome = outcome_sound r h;
  },
  λ w. outcome_complete r w.version_one w.identified w.outcome,
)

-- An error response that names its request can always be sent, if its code is a token and its
-- message stands on one line.
pub new_error_response-valid :
    (id code message : Text)
    → id ≢ []
    → IsHttpToken code
    → Avoids line_breaks message
    → validate_response (new_error_response id code message) ≡ ok tt
unfolding new_error_response
new_error_response-valid id code message i c m =
    outcome_complete (new_error_response id code message) refl i
      (failed (record { code = code; message = message }) refl (c, m))

-- A call and its reply are read back as they were written, and are well formed on both sides.
pub decode_call-encode_call :
    (c : Codec Request) (d : Codec Response) (q : Request) (r : Response) (b e : Text)
    → RoundTrips c
    → RoundTrips d
    → encode_request c q ≡ ok b
    → encode_response d r ≡ ok e
    → (decode_request c b ≡ ok q)
      × WellFormed q
      × (decode_response d e ≡ ok r)
      × WellFormedResponse r
unfolding encode_request decode_request encode_response decode_response
decode_call-encode_call c d q r b e rt rt' h k =
    let vq : validate_request q ≡ ok tt = ground arith in
    let vr : validate_response r ≡ ok tt = ground arith in
    let mq : c.marshal q ≡ ok b = ground arith in
    let mr : d.marshal r ≡ ok e = ground arith in
    (
      ground (arith, rt q b mq, vq),
      (validate_request_iff q).0 vq,
      ground (arith, rt' r e mr, vr),
      (validate_response_iff r).0 vr,
    )
