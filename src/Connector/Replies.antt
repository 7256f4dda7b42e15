-- ===== src/Connector/Replies.antt =====
-- Every call gets a reply: the callback of internal/connector/connector.go always responds with an
-- envelope that the edge can read.
use airpc.Prelude.{
  ℕ, ◌≡◌, ◌≢◌, ◌⊎◌, refl, sym, ◌∙◌, ap, inl, inr, true, false, List, [], Option, none, some, Text,
  text, contains_any, elem, is_token_char, lookup, Result, ok, err, Result-cases, Option-cases,
  Bool-cases, arith,
}
use airpc.Codec.{Codec, RoundTrips, IsTotal}
use airpc.Url.{Url, UrlParser}
use airpc.Config.Shape
use airpc.Tunnel.{Frame, line_breaks}
use airpc.Tunnel.Frames.{contains_any_iff}
use airpc.Unary.{
  Request, Response, valid_token, new_error_response, validate_response, validate_request,
  encode_response, decode_request, decode_response,
}
use airpc.Unary.Requests.{validate_request_iff, valid_token_iff}
use airpc.Unary.Responses.{new_error_response-valid}
use airpc.Link.{Link, LinkError, open_session}
use airpc.Connector.{ProxyRoute, target_url}
use airpc.Connector.Unaries.{
  BackendResponse, Backend, not_built, unreachable, answered, ReadError, read_failed, too_large,
  read_bounded, route_response_limit, should_stream, read_inline, stream_frame, stream_or_inline,
  try_stream, forward_answered, forward, handle_request, handle, payload_for, answer,
}

-- The error of a failed reading is one of two.
read_error-request_id :
    (r : Shape.Route) (req : Request) (b : BackendResponse) (x : ReadError)
    → read_bounded b.body b.broken (route_response_limit r) ≡ err x
    → (read_inline r req b).request_id ≡ req.request_id
unfolding read_inline new_error_response
read_error-request_id r req b read_failed e = ground (arith, e)
read_error-request_id r req b too_large e = ground (arith, e)

read_inline-request_id :
    (r : Shape.Route) (req : Request) (b : BackendResponse)
    → (read_inline r req b).request_id ≡ req.request_id
unfolding read_inline new_error_response
read_inline-request_id r req b =
    elim (Result-cases (read_bounded b.body b.broken (route_response_limit r))) [
      | inl (body, e) ↦ ground (arith, e)
      | inr (x, e) ↦ read_error-request_id r req b x e
    ]

stream-request_id :
    (id : Text) (r : Shape.Route) (req : Request) (b : BackendResponse)
    (o : Result LinkError ℕ × Link)
    → (stream_or_inline id r req b o).0.request_id ≡ req.request_id
stream-request_id id r req b (ok s, l) = refl
stream-request_id id r req b (err e, l) = read_inline-request_id r req b

try-request_id :
    (fc : Codec Frame) (id : Text) (r : Shape.Route) (req : Request) (b : BackendResponse)
    (link : Option Link)
    → (try_stream fc id r req b link).0.request_id ≡ req.request_id
try-request_id fc id r req b none = read_inline-request_id r req b
try-request_id fc id r req b (some l) =
    stream-request_id id r req b (open_session fc (stream_frame req) l)

answered-request_id :
    (fc : Codec Frame) (id : Text) (r : Shape.Route) (req : Request) (b : BackendResponse)
    (link : Option Link)
    → (forward_answered fc id r req b link).0.request_id ≡ req.request_id
unfolding forward_answered
answered-request_id fc id r req b link =
    elim (Bool-cases (should_stream b (route_response_limit r))) [
      | inl e ↦ rw e (try-request_id fc id r req b link)
      | inr e ↦ rw e (read_inline-request_id r req b)
    ]

Backend-cases :
    (x : Backend) → (x ≡ not_built) ⊎ (x ≡ unreachable) ⊎ ((b : BackendResponse) × (x ≡ answered b))
Backend-cases not_built = inl refl
Backend-cases unreachable = inr (inl refl)
Backend-cases (answered b) = inr (inr (b, refl))

module _ (parse_uri : UrlParser) (call : Url → Request → Backend) (fc : Codec Frame) where
  forward-request_id :
      (id : Text) (r : ProxyRoute) (req : Request) (link : Option Link)
      → (forward parse_uri call fc id r req link).0.request_id ≡ req.request_id
  unfolding forward new_error_response
  forward-request_id id r req link = elim (Option-cases (target_url parse_uri r.target req.path)) [
    | inl e ↦ ground (arith, e)
    | inr (u, e) ↦ elim (Backend-cases (call u req)) [
      | inl f ↦ ground (arith, e, f)
      | inr (inl f) ↦ ground (arith, e, f)
      | inr (inr (b, f)) ↦ ground (arith, e, f, answered-request_id fc id r.cfg req b link)
    ]
  ]

-- What the edge reads: the response, or an error in place of one that is no valid envelope.
pub data IsDelivered (response : Response) (r : Response) : Type 0 where
  whole : r ≡ response → IsDelivered response r
  stand_in :
      validate_response response ≢ ok tt
      → r
        ≡ new_error_response response.request_id
            (text "protocol_error")
            (text "failed to encode connector response")
      → IsDelivered response r

sent :
    (rc : Codec Response) (r : Response)
    → RoundTrips rc
    → IsTotal rc
    → validate_response r ≡ ok tt
    → (b : Text) × (encode_response rc r ≡ ok b) × (decode_response rc b ≡ ok r)
unfolding encode_response decode_response
sent rc r rt total v =
    let (b, m) = total r in
    let back = rt r b m in (b, ground (arith, v, m), ground (arith, back, v))

encoded-valid :
    (rc : Codec Response) (r : Response) (b : Text)
    → encode_response rc r ≡ ok b
    → validate_response r ≡ ok tt
unfolding encode_response
encoded-valid rc r b h = ground arith

decoded-valid :
    (qc : Codec Request) (q : Request) (b : Text)
    → decode_request qc b ≡ ok q
    → validate_request q ≡ ok tt
unfolding decode_request
decoded-valid qc q b h = ground arith

delivered_id : (response r : Response) → IsDelivered response r → r.request_id ≡ response.request_id
unfolding new_error_response
delivered_id response r (whole e) = ap (λ x. x.request_id) e
delivered_id response r (stand_in v e) = ap (λ x. x.request_id) e

plain_texts :
    (valid_token (text "protocol_error") ≡ true)
    × (contains_any (text "failed to encode connector response") line_breaks ≡ false)
unfolding valid_token is_token_char contains_any elem
plain_texts = (refl, refl)

stand_in-valid :
    (id : Text)
    → id ≢ []
    → validate_response
        (new_error_response id (text "protocol_error") (text "failed to encode connector response"))
      ≡ ok tt
stand_in-valid id n =
    new_error_response-valid id (text "protocol_error") (text "failed to encode connector response")
      n ((valid_token_iff (text "protocol_error")).0 plain_texts.0)
      ((contains_any_iff (text "failed to encode connector response") line_breaks).0 plain_texts.1)

module _ (parse_uri : UrlParser) (call : Url → Request → Backend) (fc : Codec Frame)
    (qc : Codec Request) (rc : Codec Response) (connector_id : Text)
    (routes : List (Text × ProxyRoute)) where
  payload-read :
      (response : Response)
      → RoundTrips rc
      → IsTotal rc
      → response.request_id ≢ []
      → (r : Response) × (decode_response rc
            (payload_for parse_uri call fc qc rc connector_id routes response)
          ≡ ok r)
        × IsDelivered response r
  unfolding payload_for
  payload-read response rt total n = elim (Result-cases (encode_response rc response)) [
    | inl (b, e) ↦
        let (b', e', d) = sent rc response rt total (encoded-valid rc response b e) in
        let same : b' ≡ b = ground arith in (response, ground (arith, e, d, same), whole refl)
    | inr (x, e) ↦
        let fallback =
          new_error_response response.request_id (text "protocol_error")
            (text "failed to encode connector response") in
        let (b, f, d) = sent rc fallback rt total (stand_in-valid response.request_id n) in
        (
          fallback,
          ground (arith, e, f, d),
          stand_in (λ v. let (b', e', d') = sent rc response rt total v in absurd (ground arith))
              refl,
        )
  ]

  request-id :
      (req : Request) (link : Option Link)
      → (handle_request parse_uri call fc qc rc connector_id routes req link).0.request_id
        ≡ req.request_id
  unfolding handle_request new_error_response
  request-id req link = elim (Option-cases (lookup req.route routes)) [
    | inl e ↦ ground (arith, e)
    | inr (r, e) ↦ ground (arith, e, forward-request_id parse_uri call fc connector_id r req link)
  ]

  handled :
      (b : Text) (req : Request) (link : Option Link)
      → decode_request qc b ≡ ok req
      → handle parse_uri call fc qc rc connector_id routes b link
        ≡ handle_request parse_uri call fc qc rc connector_id routes req link
  unfolding handle
  handled b req link e = ground (arith, e)

  -- Whatever the backend does, the edge gets a reply to each call that it can read, under the id of
  -- the call: what the handler has made of the call, or an error if that is no valid envelope.
  pub answer-IsDelivered :
      (b : Text) (req : Request) (link : Option Link)
      → RoundTrips rc
      → IsTotal rc
      → decode_request qc b ≡ ok req
      → (r : Response) × (decode_response rc
            (answer parse_uri call fc qc rc connector_id routes b link).0
          ≡ ok r)
        × (r.request_id ≡ req.request_id)
        × IsDelivered (handle_request parse_uri call fc qc rc connector_id routes req link).0 r
  unfolding answer
  answer-IsDelivered b req link rt total e =
      let response = (handle_request parse_uri call fc qc rc connector_id routes req link).0 in
      let w = (validate_request_iff req).0 (decoded-valid qc req b e) in
      let i = request-id req link in
      let n : response.request_id ≢ [] = λ q. w.identified (sym i ∙ q) in
      let (r, d, delivered) = payload-read response rt total n in
      let h = ap (λ x. x.0) (handled b req link e) in
      (r, rw h d, delivered_id response r delivered ∙ i, delivered)
