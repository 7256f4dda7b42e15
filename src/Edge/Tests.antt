-- ===== src/Edge/Tests.antt =====
-- The routing and the opening of sessions at concrete inputs.
use airpc.Prelude.{
  All, ◌≡◌, ◌↔◌, refl, true, false, List, [], ◌∷◌, ◌++◌, none, some, Text, text, trim_prefix,
  trim_space, trim_left, trim_right, is_space, to_lower, lower_char, equal_fold, split_host_port,
  split_last, split_bracketed, split_first, pos, lookup, insert, erase, modify, ok, err,
}
use airpc.Config.Shape
use airpc.Config.Tokens.{mode_http, mode_websocket, mode_tcp, open_subject}
use airpc.Unary.{relative_path, validate_path}
use airpc.Tunnel.Sample.{
  tunnel, frame_codec, request_codec, response_codec, frame_codec-RoundTrips,
  request_codec-RoundTrips, response_codec-RoundTrips, frame_codec-IsTotal, request_codec-IsTotal,
  response_codec-IsTotal,
}
use airpc.Link.{Link, new_link, open_session, add_session, write_frame}
use airpc.Connector.{StreamRoute}
use airpc.Connector.Opens.{handle_open_message, open_answer}
use airpc.Edge.{
  HttpRequest, public_route, insert_route, sort_routes, routes_of, http_routes, ws_routes,
  normalize_host, host_matches, ends_in_slash, path_has_prefix, with_query, or_slash, route_suffix,
  match_route, unary, websocket, not_found, serve_http,
}
use airpc.Prelude.{if◌then◌else◌, text_eq}
use airpc.Config.Tokens.{validate_subject_token, check_runes}
use airpc.Config.Subjects.{IsSubjectToken}
use airpc.Edge.Admission.{
  TunnelRequest, admitted, unauthorized, invalid_id, connector_id_of, MayConnect, admit, admit_iff,
}
use airpc.Edge.Best.{best_match}
use airpc.Edge.Choice.{IsChosen, serve_http-IsChosen}
use airpc.Edge.Paths.{slash_prefix_refused}
use airpc.Edge.Tunnels.{
  Tunnels, register, close_all, Attempt, Opened, open_on, frame_of, accept_reply,
  attempt_open_data_session, open_data_session,
}
use airpc.Edge.Opens.{Backing, OpenedSession, open_data_session-Backing}
use airpc.Edge.Registry.{arrives, Reach, none_yet, behind, IsTracked, Reach-IsTracked}
use airpc.Edge.Handshake.{asked, handshake-opens}

unfoldable edge : Unit {0}
unfolding tunnel insert_route sort_routes routes_of http_routes ws_routes normalize_host
    host_matches ends_in_slash path_has_prefix with_query or_slash route_suffix match_route
    serve_http best_match trim_prefix trim_space trim_left trim_right is_space to_lower lower_char
    equal_fold split_host_port split_last split_bracketed split_first validate_path lookup insert
    erase modify open_on accept_reply attempt_open_data_session open_data_session open_session
    add_session write_frame new_link open_answer handle_open_message open_subject
edge = tt

abbrev base : Shape.Route
base = record {
  name = text "api";
  mode = mode_http;
  public_host = [];
  public_prefix = text "/api";
  public_path = [];
  listen = [];
  target = text "http://api:80";
  max_inline_request_bytes = pos 0;
  max_inline_response_bytes = pos 0;
  max_request_body_bytes = pos 0;
  max_response_body_bytes = pos 0;
  timeout = pos 0;
  idle_timeout = pos 0;
  forwarded_headers = [];
  tls = false;
}

abbrev admin : Shape.Route
admin = record base {
  name = text "admin";
  public_prefix = text "/api/admin";
  public_host = text "Edge.Example";
}

abbrev slashed : Shape.Route
slashed = record base { name = text "all"; public_prefix = text "/" }

abbrev tcp_route : Shape.Route
tcp_route = record base { name = text "db"; mode = mode_tcp; public_prefix = [] }

abbrev asking : HttpRequest
asking = record {
  host = text "edge.example:8080";
  path = text "/api/admin/x";
  raw_query = text "q=1";
}

routing_test :
    (serve_http [] (http_routes (base ∷ admin ∷ [])) asking
      ≡ unary (public_route admin) (text "/x?q=1"))
    × (serve_http [] (http_routes (base ∷ admin ∷ [])) (record asking { host = text "other" })
        ≡ unary (public_route base) (text "/admin/x?q=1"))
    × (serve_http [] (http_routes (base ∷ [])) (record asking { path = text "/apiary" })
        ≡ not_found)
unfolding edge
routing_test = (refl, refl, refl)

-- A WebSocket route, lighter than the HTTP routes.
abbrev socket : Shape.Route
socket = record base { name = text "ws"; mode = mode_websocket; public_prefix = text "/a" }

socket_test :
    (serve_http
        (ws_routes (base ∷ socket ∷ []))
        (http_routes (base ∷ socket ∷ []))
        (record asking { path = text "/a/api" })
      ≡ websocket (public_route socket) (text "/api?q=1"))
    × (serve_http (ws_routes (base ∷ socket ∷ [])) (http_routes (base ∷ socket ∷ [])) asking
        ≡ unary (public_route base) (text "/admin/x?q=1"))
unfolding edge
socket_test = (refl, refl)

serve_http-IsChosen_example :
    IsChosen (base ∷ admin ∷ socket ∷ []) asking (unary (public_route admin) (text "/x?q=1"))
unfolding edge
serve_http-IsChosen_example = serve_http-IsChosen (base ∷ admin ∷ socket ∷ []) asking

slash_prefix_refused_example :
    (suffix : Text) × (route_suffix (public_route slashed) asking ≡ some suffix)
    × (validate_path suffix ≡ err relative_path)
unfolding edge
slash_prefix_refused_example =
    slash_prefix_refused (public_route slashed) asking b'a' (text "pi/admin/x") refl refl refl refl
      refl

abbrev stream_map : List (Text × StreamRoute)
stream_map = (text "db", record { cfg = tcp_route; target = none }) ∷ []

abbrev tunnels : Tunnels
tunnels = record { links = new_link ∷ []; registered = (text "c1", 0) ∷ [] }

abbrev answering : Attempt
answering = asked (handle_open_message request_codec response_codec (text "c1") stream_map true)

handshake-opens_example :
    (l' : Link) × (attempt_open_data_session frame_codec request_codec response_codec tcp_route
        (text "s1")
        (text "/")
        (pos 5)
        answering
        tunnels
      ≡ (ok (0, 0), record tunnels { links = modify (λ _. l') 0 tunnels.links }))
    × OpenedSession frame_codec (frame_of tcp_route (text "s1") (text "/")) new_link l'
unfolding edge
handshake-opens_example =
    handshake-opens frame_codec request_codec response_codec tcp_route (text "s1") (text "/")
      (text "c1") (pos 5) stream_map (record { cfg = tcp_route; target = none }) tunnels 0 new_link
      frame_codec-RoundTrips frame_codec-IsTotal request_codec-RoundTrips request_codec-IsTotal
      response_codec-RoundTrips response_codec-IsTotal refl refl refl refl refl refl refl refl

-- A connector without a tunnel, which makes the edge try again.
abbrev silent : Attempt
silent = asked (handle_open_message request_codec response_codec (text "c1") stream_map false)

abbrev outcome : Opened
outcome =
    open_data_session frame_codec request_codec response_codec tcp_route (text "s1") (text "/")
      (pos 5) silent (answering ∷ []) tunnels

open_data_session-Backing_example :
    Backing frame_codec request_codec response_codec tcp_route
      (text "s1")
      (text "/")
      (pos 5)
      silent
      (answering ∷ [])
      tunnels
      0
unfolding edge
open_data_session-Backing_example =
    open_data_session-Backing frame_codec request_codec response_codec tcp_route (text "s1")
      (text "/") (pos 5) silent (answering ∷ []) tunnels outcome.1 0 0 refl

abbrev dialling : TunnelRequest
dialling = record {
  path = text "/_airpc/data";
  query = λ k. if text_eq k (text "connector_id") then text "c1" else [];
  authorization = text "Bearer secret";
}

admissions_test :
    (admit (text "secret") dialling ≡ admitted (text "c1"))
    × (admit (text "other") dialling ≡ unauthorized)
    × (admit [] (record dialling { query = λ k. text "a.b" }) ≡ invalid_id)
unfolding edge admit validate_subject_token check_runes
admissions_test = (refl, refl, refl)

admit_iff_example : (admit (text "secret") dialling ≡ admitted (text "c1")) ↔ (
    (text "/_airpc/data" ≡ text "/_airpc/data")
    × (text "c1" ≡ connector_id_of dialling)
    × IsSubjectToken (text "c1")
    × MayConnect (text "secret") dialling)
admit_iff_example = admit_iff (text "secret") dialling (text "c1")

-- A connector that comes back before its first tunnel has ended.
abbrev once : Tunnels
once = register (text "c1") 0 (record { links = new_link ∷ []; registered = [] })

abbrev twice : Tunnels
twice =
    register (text "c1") 1
      (record { links = once.links ++ new_link ∷ []; registered = once.registered })

comes_back : Reach twice
unfolding edge register
comes_back =
    behind {t = once} (behind none_yet (arrives (text "c1") new_link))
      (arrives (text "c1") new_link)

Reach-IsTracked_example :
    IsTracked twice × All (λ (l : Link). l.connected ≡ false) (close_all twice).links
Reach-IsTracked_example = Reach-IsTracked comes_back
