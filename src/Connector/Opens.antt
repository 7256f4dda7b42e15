-- ===== src/Connector/Opens.antt =====
-- `handleOpenMessage` of internal/connector/connector.go: the answer to the edge's question whether
-- the connector serves a stream route.
use airpc.Prelude.{
  ◌≡◌, ◌↔◌, ◌⊎◌, inl, inr, refl, Bool, true, false, not, List, [], none, some, Text, text, text_eq,
  lookup, Result, ok, err, if◌then◌else◌, arith, Bool-cases, Option-cases, contains_any, elem,
  is_word, runes,
}
use airpc.Codec.{Codec, RoundTrips, IsTotal}
use airpc.Tunnel
use airpc.Tunnel.{
  OpenRequest, OpenResponse, version, err_tunnel_not_connected, valid_token, error_text_refused,
  validate_open_response, validate_open_request, encode_open_response, decode_open_request,
  decode_open_response,
}
use airpc.Tunnel.Frames.{valid_token_iff}
use airpc.Tunnel.Opens.{validate_open_request_iff}
use airpc.Connector.{StreamRoute}

abbrev pub refusal : Text → Text → OpenResponse
refusal request_id error = record {
  version = version;
  request_id = request_id;
  accepted = false;
  connector_id = [];
  error = error;
}

abbrev pub acceptance : Text → Text → OpenResponse
acceptance request_id connector_id = record {
  version = version;
  request_id = request_id;
  accepted = true;
  connector_id = connector_id;
  error = [];
}

-- `payload, _ := tunnel.EncodeOpenResponse(...)`: nil if the encoding fails.
abbrev pub payload_of : Result Tunnel.Error Text → Text
payload_of (ok b) = b
payload_of (err e) = []

-- The answer to a decoded request, of a connector whose data tunnel is up or down.
unfoldable pub open_answer : Text → List (Text × StreamRoute) → Bool → OpenRequest → OpenResponse
open_answer connector_id routes connected req = elim (lookup req.route routes) [
  | none ↦ refusal req.request_id (text "route is not configured on connector")
  | some r ↦
      if not (text_eq r.cfg.mode req.kind)
      then refusal req.request_id (text "route is not configured on connector")
      else if not connected
      then refusal req.request_id err_tunnel_not_connected
      else acceptance req.request_id connector_id
]

unfoldable pub handle_open_message :
    Codec OpenRequest → Codec OpenResponse → Text → List (Text × StreamRoute) → Bool → Text → Text
unfolding open_answer
handle_open_message c d connector_id routes connected bytes = elim (decode_open_request c bytes) [
  | err e ↦
      payload_of (encode_open_response d (refusal (text "unknown") (text "invalid open request")))
  | ok req ↦ payload_of (encode_open_response d (open_answer connector_id routes connected req))
]

-- The answer accepts exactly if the route is configured with the kind of the request and the tunnel
-- is up.
pub open_answer-accepts_iff :
    (id : Text) (routes : List (Text × StreamRoute)) (connected : Bool) (req : OpenRequest)
    → ((open_answer id routes connected req).accepted ≡ true) ↔ (
        (r : StreamRoute) × (lookup req.route routes ≡ some r)
        × (text_eq r.cfg.mode req.kind ≡ true)
        × (connected ≡ true))
unfolding open_answer
open_answer-accepts_iff id routes connected req = elim (Option-cases (lookup req.route routes)) [
  | inl e ↦ (λ h. absurd (ground (arith, e)), λ h. absurd (ground (arith, e, h.1)))
  | inr (r, e) ↦
      (λ h. (r, e, ground (arith, e), ground (arith, e)), λ h. ground (arith, e, h.1, h.2, h.3))
]

answer_cases :
    (id : Text) (routes : List (Text × StreamRoute)) (connected : Bool) (req : OpenRequest)
    → (open_answer id routes connected req
        ≡ refusal req.request_id (text "route is not configured on connector"))
      ⊎ (open_answer id routes connected req ≡ refusal req.request_id err_tunnel_not_connected)
      ⊎ (open_answer id routes connected req ≡ acceptance req.request_id id)
unfolding open_answer
answer_cases id routes connected req = elim (Option-cases (lookup req.route routes)) [
  | inl e ↦ inl (ground (arith, e))
  | inr (r, e) ↦ elim (Bool-cases (text_eq r.cfg.mode req.kind)) [
    | inr f ↦ inl (ground (arith, e, f))
    | inl f ↦ elim (Bool-cases connected) [
      | inr g ↦ inr (inl (ground (arith, e, f, g)))
      | inl g ↦ inr (inr (ground (arith, e, f, g)))
    ]
  ]
]

refusal-valid :
    (id error : Text)
    → valid_token id ≡ true
    → error_text_refused error ≡ false
    → validate_open_response (refusal id error) ≡ ok tt
unfolding validate_open_response
refusal-valid id error v m = ground (arith, v, m)

acceptance-valid :
    (id connector_id : Text)
    → valid_token id ≡ true
    → valid_token connector_id ≡ true
    → validate_open_response (acceptance id connector_id) ≡ ok tt
unfolding validate_open_response
acceptance-valid id connector_id v w = ground (arith, v, w)

plain_texts :
    (error_text_refused (text "route is not configured on connector") ≡ false)
    × (error_text_refused err_tunnel_not_connected ≡ false)
unfolding error_text_refused contains_any elem
plain_texts = (refl, refl)

open_answer-valid :
    (id : Text) (routes : List (Text × StreamRoute)) (connected : Bool) (req : OpenRequest)
    → valid_token id ≡ true
    → valid_token req.request_id ≡ true
    → validate_open_response (open_answer id routes connected req) ≡ ok tt
open_answer-valid id routes connected req v w = elim (answer_cases id routes connected req) [
  | inl e ↦ rw e (refusal-valid req.request_id _ w plain_texts.0)
  | inr (inl e) ↦ rw e (refusal-valid req.request_id _ w plain_texts.1)
  | inr (inr e) ↦ rw e (acceptance-valid req.request_id id w v)
]

unknown-valid :
    validate_open_response (refusal (text "unknown") (text "invalid open request")) ≡ ok tt
unfolding validate_open_response valid_token error_text_refused contains_any elem is_word runes
unknown-valid = refl

-- A valid response survives its way, as total codecs never fail.
sent_response :
    (d : Codec OpenResponse) (r : OpenResponse)
    → RoundTrips d
    → IsTotal d
    → validate_open_response r ≡ ok tt
    → decode_open_response d (payload_of (encode_open_response d r)) ≡ ok r
unfolding encode_open_response decode_open_response
sent_response d r rt total v =
    let (b, m) = total r in let back = rt r b m in ground (arith, v, m, back)

decoded-valid :
    (c : Codec OpenRequest) (b : Text) (req : OpenRequest)
    → decode_open_request c b ≡ ok req
    → validate_open_request req ≡ ok tt
unfolding decode_open_request
decoded-valid c b req h = ground arith

-- The edge reads exactly the answer of the connector, whatever request it sent.
pub handle_open_message-answer :
    (c : Codec OpenRequest) (d : Codec OpenResponse) (id : Text)
    (routes : List (Text × StreamRoute)) (connected : Bool) (b : Text) (req : OpenRequest)
    → RoundTrips d
    → IsTotal d
    → valid_token id ≡ true
    → decode_open_request c b ≡ ok req
    → decode_open_response d (handle_open_message c d id routes connected b)
      ≡ ok (open_answer id routes connected req)
unfolding handle_open_message
handle_open_message-answer c d id routes connected b req rt total v h =
    let w = (validate_open_request_iff req).0 (decoded-valid c b req h) in
    let t = (valid_token_iff req.request_id).1 w.request_token in
    let s =
      sent_response d (open_answer id routes connected req) rt total
        (open_answer-valid id routes connected req v t) in
    rw (handle_open_message, h) s

-- A message that is no open request is refused under the name `unknown`.
pub handle_open_message-unknown :
    (c : Codec OpenRequest) (d : Codec OpenResponse) (id : Text)
    (routes : List (Text × StreamRoute)) (connected : Bool) (b : Text) (e : Tunnel.Error)
    → RoundTrips d
    → IsTotal d
    → decode_open_request c b ≡ err e
    → decode_open_response d (handle_open_message c d id routes connected b)
      ≡ ok (refusal (text "unknown") (text "invalid open request"))
unfolding handle_open_message
handle_open_message-unknown c d id routes connected b e rt total h =
    rw (handle_open_message, h)
      (sent_response d (refusal (text "unknown") (text "invalid open request")) rt total
        unknown-valid)
