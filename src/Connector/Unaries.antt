-- ===== src/Connector/Unaries.antt =====
-- internal/connector/proxy.go: the forwarding of a call to its backend, and the callback of
-- internal/connector/connector.go that answers the message. The backend is a parameter; the map of
-- calls in flight, which cancels use, is in Connector/Inflight.
use airpc.Prelude.{
  ℕ, suc, Bool, true, ◌&&◌, ◌||◌, List, [], ◌∷◌, Option, none, some, Text, text, has_prefix,
  to_lower, lookup, length, take, ltb, ◌==◌, ℤ, pos, pos_part, ltb_ℤ, leb_ℤ, Result, ok, err,
  if◌then◌else◌,
}
use airpc.Codec.{Codec}
use airpc.Url.{Url, UrlParser}
use airpc.Config.Shape
use airpc.Config.Shape.{max_inline_response}
use airpc.Config.Sizes.{max_int64}
use airpc.Tunnel.{Frame, frame_open, new_frame, kind_http_stream}
use airpc.Unary.{
  Header, Request, Response, Invalid, version, new_error_response, encode_response, decode_request,
}
use airpc.Headers.{filter_response, values_of, canonical_header_key}
use airpc.Link.{Link, LinkError, open_session}
use airpc.Connector.{ProxyRoute, target_url}

-- What the code reads of an `http.Response`; `broken` if reading the body fails behind `body`.
pub record BackendResponse : Type 0 where
  pub status : ℤ
  pub headers : Header
  pub content_length : ℤ
  pub body : Text
  pub broken : Bool

-- `http.NewRequestWithContext` and `client.Do` on a URL.
pub data Backend : Type 0 where
  not_built unreachable : Backend
  answered : BackendResponse → Backend

abbrev pub default_response_limit : ℤ
default_response_limit = pos 16777216

unfoldable pub route_response_limit : Shape.Route → ℤ
unfolding max_inline_response
route_response_limit r =
    if leb_ℤ (max_inline_response r) (pos 0) then default_response_limit else max_inline_response r

pub data ReadError : Type 0 where
  read_failed too_large : ReadError

-- The bytes that `io.LimitReader(body, limit+1)` lets through; the sum wraps around.
abbrev pub allowance : ℤ → ℕ
allowance limit = if pos_part limit == max_int64 then 0 else suc (pos_part limit)

unfoldable pub read_bounded : Text → Bool → ℤ → Result ReadError Text
read_bounded body broken limit =
    let bytes = take (allowance limit) body in
    if broken && ltb (length body) (allowance limit)
    then err read_failed
    else if ltb (pos_part limit) (length bytes)
    then err too_large
    else ok bytes

abbrev first : List Text → Text
first [] = []
first (v ∷ vs) = v

-- `h.Get(name)`
unfoldable pub header_get : Text → Header → Text
header_get name h = first (values_of (canonical_header_key name) h)

unfoldable pub should_stream : BackendResponse → ℤ → Bool
should_stream b limit =
    if ltb_ℤ b.content_length (pos 0) || ltb_ℤ limit b.content_length
    then true
    else has_prefix (to_lower (header_get (text "Content-Type") b.headers))
        (text "text/event-stream")

abbrev pub inline_response : Request → BackendResponse → Text → Response
inline_response req b body = record {
  version = version;
  request_id = req.request_id;
  status = b.status;
  headers = filter_response b.headers;
  body = body;
  stream_session_id = [];
  connector_id = [];
  error = none;
}

abbrev pub streamed_response : Text → Request → BackendResponse → Response
streamed_response connector_id req b = record {
  version = version;
  request_id = req.request_id;
  status = b.status;
  headers = filter_response b.headers;
  body = [];
  stream_session_id = req.request_id;
  connector_id = connector_id;
  error = none;
}

-- What follows in `forward` if the body is not streamed.
unfoldable pub read_inline : Shape.Route → Request → BackendResponse → Response
unfolding read_bounded
read_inline r req b = elim (read_bounded b.body b.broken (route_response_limit r)) [
  | ok body ↦ inline_response req b body
  | err read_failed ↦
      new_error_response req.request_id (text "backend_error")
        (text "failed to read backend response")
  | err too_large ↦
      new_error_response req.request_id (text "response_too_large")
        (text "backend response exceeds max_inline_response")
]

abbrev pub stream_frame : Request → Frame
stream_frame req = record (new_frame frame_open req.request_id) {
  route = req.route;
  kind = kind_http_stream;
}

-- `streamResponse` after `link.Open`, or the inline path.
abbrev pub stream_or_inline :
    Text
    → Shape.Route
    → Request
    → BackendResponse
    → Result LinkError ℕ × Link
    → Response × Option Link
stream_or_inline connector_id r req b (ok s, l) = (streamed_response connector_id req b, some l)
stream_or_inline connector_id r req b (err e, l) = (read_inline r req b, some l)

abbrev pub try_stream :
    Codec Frame
    → Text
    → Shape.Route
    → Request
    → BackendResponse
    → Option Link
    → Response × Option Link
try_stream fc connector_id r req b none = (read_inline r req b, none)
try_stream fc connector_id r req b (some l) =
    stream_or_inline connector_id r req b (open_session fc (stream_frame req) l)

unfoldable pub forward_answered :
    Codec Frame
    → Text
    → Shape.Route
    → Request
    → BackendResponse
    → Option Link
    → Response × Option Link
forward_answered fc connector_id r req b link =
    if should_stream b (route_response_limit r)
    then try_stream fc connector_id r req b link
    else (read_inline r req b, link)

-- `forward`; the link is that of the data tunnel, if it is up.
unfoldable pub forward :
    UrlParser
    → (Url → Request → Backend)
    → Codec Frame
    → Text
    → ProxyRoute
    → Request
    → Option Link
    → Response × Option Link
unfolding forward_answered
forward parse_uri call fc connector_id r req link = elim (target_url parse_uri r.target req.path) [
  | none ↦ (
    new_error_response req.request_id (text "protocol_error") (text "invalid request path"),
    link,
  )
  | some u ↦ elim (call u req) [
    | not_built ↦ (
      new_error_response req.request_id (text "protocol_error")
          (text "failed to build backend request"),
      link,
    )
    | unreachable ↦ (
      new_error_response req.request_id (text "backend_error") (text "backend request failed"),
      link,
    )
    | answered b ↦ forward_answered fc connector_id r.cfg req b link
  ]
]

module _ (parse_uri : UrlParser) (call : Url → Request → Backend) (fc : Codec Frame)
    (qc : Codec Request) (rc : Codec Response) (connector_id : Text)
    (routes : List (Text × ProxyRoute)) where
  unfoldable pub handle_request : Request → Option Link → Response × Option Link
  unfolding forward
  handle_request req link = elim (lookup req.route routes) [
    | none ↦ (
      new_error_response req.request_id (text "unknown_route")
          (text "route is not configured on connector"),
      link,
    )
    | some r ↦ forward parse_uri call fc connector_id r req link
  ]

  -- `handle`
  unfoldable pub handle : Text → Option Link → Response × Option Link
  unfolding handle_request
  handle bytes link = elim (decode_request qc bytes) [
    | err e ↦ (
      new_error_response (text "unknown") (text "protocol_error") (text "invalid request envelope"),
      link,
    )
    | ok req ↦ handle_request req link
  ]

  abbrev pub payload_or_nil : Result Invalid Text → Text
  payload_or_nil (ok b) = b
  payload_or_nil (err e) = []

  -- The payload of a response, or of the error that stands in for it.
  unfoldable pub payload_for : Response → Text
  payload_for response = elim (encode_response rc response) [
    | ok b ↦ b
    | err e ↦ payload_or_nil (
        encode_response rc (
          new_error_response response.request_id (text "protocol_error")
            (text "failed to encode connector response")))
  ]

  -- The callback of the subscription: what it responds with.
  unfoldable pub answer : Text → Option Link → Text × Option Link
  unfolding handle payload_for
  answer bytes link = (payload_for (handle bytes link).0, (handle bytes link).1)
