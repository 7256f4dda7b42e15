-- ===== src/Edge/CallSample.antt =====
-- A route, a call, a backend and a connector for the tests of calls through internal/edge/edge.go.
use airpc.Prelude.{
  true, false, List, [], ◌∷◌, none, some, Text, text, pos, lookup, insert, erase, to_lower,
  lower_char, trim_space, trim_left, trim_right, is_space, ok, err,
}
use airpc.Url.{Url, UrlParser}
use airpc.Config.Shape
use airpc.Config.Shape.{max_inline_request, max_inline_response}
use airpc.Config.Tokens.{mode_http, unary_subject, cancel_subject}
use airpc.Tunnel.Sample.{tunnel, frame_codec}
use airpc.Unary.{Request, Response, version}
use airpc.Unary.Sample.{unary, request_codec, response_codec}
use airpc.Headers.{
  member, is_hop_by_hop, canonical_header_key, canonical_from, upper_char, values_of, add_value,
  copy_values, allowed_set, copy_headers, filter_request, filter_response,
}
use airpc.Connector.{ProxyRoute, target_url, trim_slashes}
use airpc.Connector.Unaries
use airpc.Connector.Unaries.{
  BackendResponse, Backend, answered, route_response_limit, should_stream, read_inline,
  forward_answered, forward, handle_request, handle, payload_for, answer,
}
use airpc.Edge.{route_request_limit}
use airpc.Edge.Calls.{
  Call, World, failed, header_get, request_scheme, read_bounded, failure_status, answer_reply,
  send_call, serve_unary,
}

unfoldable pub call : Unit {0}
unfolding tunnel unary lookup insert erase to_lower lower_char trim_space trim_left trim_right
    is_space max_inline_request max_inline_response unary_subject cancel_subject member
    is_hop_by_hop canonical_header_key canonical_from upper_char values_of add_value copy_values
    allowed_set copy_headers filter_request filter_response target_url trim_slashes
    route_response_limit Unaries.read_bounded Unaries.header_get should_stream read_inline
    forward_answered forward handle_request handle payload_for answer route_request_limit header_get
    request_scheme read_bounded failure_status answer_reply send_call serve_unary
call = tt

abbrev pub api : Shape.Route
api = record {
  name = text "api";
  mode = mode_http;
  public_host = [];
  public_prefix = text "/api";
  public_path = [];
  listen = [];
  target = text "http://api";
  max_inline_request_bytes = pos 8;
  max_inline_response_bytes = pos 8;
  max_request_body_bytes = pos 0;
  max_response_body_bytes = pos 0;
  timeout = pos 0;
  idle_timeout = pos 0;
  forwarded_headers = text "Accept" ∷ [];
  tls = false;
}

abbrev pub asking : Call
asking = record {
  method = text "POST";
  over_tls = false;
  host = text "edge";
  headers = (text "Accept", text "*/*" ∷ []) ∷ (text "Cookie", text "x" ∷ []) ∷ [];
  body = text "hello";
  broken = false;
}

abbrev pub parser : UrlParser
parser s = some (record { scheme = []; host = []; has_user = false; path = s; raw_query = [] })

abbrev pub routes : List (Text × ProxyRoute)
routes =
    (
      text "api",
      record {
        cfg = api;
        target = record {
          scheme = text "http";
          host = text "api";
          has_user = false;
          path = [];
          raw_query = [];
        };
      },
    )
    ∷ []

-- A backend that sends the body back.
abbrev pub echo : Url → Request → Backend
echo u r = answered (record {
  status = pos 200;
  headers =
      (text "Content-Type", text "text/plain" ∷ []) ∷ (text "Connection", text "close" ∷ []) ∷ [];
  content_length = pos 5;
  body = r.body;
  broken = false;
})

abbrev pub echoed : Response
echoed = record {
  version = version;
  request_id = text "r1";
  status = pos 200;
  headers = (text "Content-Type", text "text/plain" ∷ []) ∷ [];
  body = text "hello";
  stream_session_id = [];
  connector_id = [];
  error = none;
}

abbrev pub world : World
world = record {
  fresh_id = some (text "r1");
  deadline = pos 9;
  ask = λ subject payload.
      ok
        (answer parser echo frame_codec request_codec response_codec (text "c1") routes payload
          none).0;
  context_ended = false;
}

abbrev pub late : World
late = record world { ask = λ subject payload. err failed; context_ended = true }
