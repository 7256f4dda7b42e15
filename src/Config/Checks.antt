-- ===== src/Config/Checks.antt =====
-- `Route.validate` and `Config.Validate` of internal/config/config.go. The fields of a route are
-- named by their suffix, and the index that the messages carry is kept beside the error.
use airpc.Prelude.{
  ℕ, suc, Bool, true, false, ◌&&◌, ◌||◌, not, List, [], ◌∷◌, Option, none, some, Text, text,
  text_eq, is_empty, has_prefix, contains_any, ℤ, pos, ltb_ℤ, Result, ok, ◌>>◌, reject, guard,
  if◌then◌else◌,
}
use airpc.Url.{UrlParser}
use airpc.Config.Errors.{
  Invalid, required, bad_mode, not_a_host, no_public_path, negative, bad_header, tls_mode,
  tls_without_edge, duplicate_name, edge_key_pair, connector_key_pair, connector_not_wss, no_routes,
}
use airpc.Config.Tokens.{
  mode_http, mode_grpc, mode_websocket, mode_tcp, valid_mode, validate_subject_token,
  valid_header_name,
}
use airpc.Config.Shape
use airpc.Config.Shape.{Config, EdgeConfig, TlsServerConfig, TlsClientConfig, ConnectorConfig}
use airpc.Config.Addresses.{
  validate_host_port, validate_path, validate_nats_url, validate_connector_url,
  validate_route_target,
}

-- The case of HTTP and WebSocket routes.
unfoldable pub validate_public_url : ℕ → Shape.Route → Result Invalid (Unit {0})
validate_public_url i r = do
  reject (not (is_empty r.public_host) && contains_any r.public_host (text "/?#"))
      (not_a_host (text "public_host"))
  reject (is_empty r.public_prefix && is_empty r.public_path) (no_public_path i)
  validate_path (text "public_prefix") r.public_prefix
  validate_path (text "public_path") r.public_path

unfoldable pub validate_route_public_fields : ℕ → Shape.Route → Result Invalid (Unit {0})
unfolding validate_public_url
validate_route_public_fields i r =
    if text_eq r.mode mode_http || text_eq r.mode mode_websocket
    then validate_public_url i r
    else if text_eq r.mode mode_tcp || text_eq r.mode mode_grpc
    then validate_host_port (text "listen") r.listen
    else ok tt

-- The loop over `ForwardedHeaders`, from an index on.
unfoldable pub check_headers : ℕ → List Text → Result Invalid (Unit {0})
check_headers j [] = ok tt
check_headers j (h ∷ hs) = guard (valid_header_name h) (bad_header j h) >> check_headers (suc j) hs

abbrev is_negative : ℤ → Bool
is_negative n = ltb_ℤ n (pos 0)

abbrev pub edge_tls : Option TlsServerConfig → Bool
edge_tls none = false
edge_tls (some t) = true

-- `if route.TLS { ... }`
unfoldable pub check_route_tls : Bool → ℕ → Shape.Route → Result Invalid (Unit {0})
check_route_tls with_edge i r =
    if r.tls
    then guard (text_eq r.mode mode_tcp || text_eq r.mode mode_grpc) (tls_mode i)
      >> guard with_edge (tls_without_edge i)
    else ok tt

-- The set `seen` as a list of names.
unfoldable pub has_name : Text → List Text → Bool
has_name name [] = false
has_name name (s ∷ seen) = text_eq s name || has_name name seen

-- An optional value is checked only if it is given.
abbrev unless_empty : Text → Result Invalid (Unit {0}) → Result Invalid (Unit {0})
unless_empty value check = if is_empty value then ok tt else check

unfoldable pub check_edge_tls : Option TlsServerConfig → Result Invalid (Unit {0})
check_edge_tls none = ok tt
check_edge_tls (some t) = reject (is_empty t.cert_file || is_empty t.key_file) edge_key_pair

abbrev differ : Bool → Bool → Bool
differ a b = if a then not b else b

unfoldable pub check_connector_tls : Text → Option TlsClientConfig → Result Invalid (Unit {0})
check_connector_tls edge_data_url none = ok tt
check_connector_tls edge_data_url (some t) = do
  reject (differ (is_empty t.cert_file) (is_empty t.key_file)) connector_key_pair
  guard (has_prefix edge_data_url (text "wss://")) connector_not_wss

abbrev pub is_nil : List Shape.Route → Bool
is_nil [] = true
is_nil (r ∷ rs) = false

module _ (parse : UrlParser) where
  unfoldable pub route_validate : ℕ → Shape.Route → Result Invalid (Unit {0})
  unfolding check_headers
  route_validate i r = do
    validate_subject_token (text "name") r.name
    guard (valid_mode r.mode) (bad_mode r.mode)
    reject (is_empty r.target) (required (text "target"))
    validate_route_target parse (text "target") r.mode r.target
    validate_route_public_fields i r
    reject (is_negative r.max_inline_request_bytes) (negative (text "max_inline_request"))
    reject (is_negative r.max_inline_response_bytes) (negative (text "max_inline_response"))
    reject (is_negative r.max_request_body_bytes) (negative (text "max_request_body_bytes"))
    reject (is_negative r.max_response_body_bytes) (negative (text "max_response_body_bytes"))
    reject (is_negative r.timeout) (negative (text "timeout"))
    reject (is_negative r.idle_timeout) (negative (text "idle_timeout"))
    check_headers 0 r.forwarded_headers

  -- The loop over the routes, from an index on, with the names seen so far.
  unfoldable pub check_routes : Bool → ℕ → List Text → List Shape.Route → Result Invalid (Unit {0})
  unfolding route_validate check_route_tls has_name
  check_routes with_edge i seen [] = ok tt
  check_routes with_edge i seen (r ∷ rs) = do
    route_validate i r
    check_route_tls with_edge i r
    reject (has_name r.name seen) (duplicate_name i)
    check_routes with_edge (suc i) (r.name ∷ seen) rs

  unfoldable pub config_validate : Config → Result Invalid (Unit {0})
  unfolding check_routes check_edge_tls check_connector_tls
  config_validate c = do
    validate_nats_url parse (text "nats.url") c.nats.url
    unless_empty c.nats.edge_url (validate_nats_url parse (text "nats.edge_url") c.nats.edge_url)
    unless_empty c.nats.connector_url
        (validate_nats_url parse (text "nats.connector_url") c.nats.connector_url)
    validate_host_port (text "edge.http_addr") c.edge.http_addr
    validate_host_port (text "edge.data_addr") c.edge.data_addr
    validate_connector_url parse c.connector.edge_data_url
    unless_empty c.edge.metrics_addr
        (validate_host_port (text "edge.metrics_addr") c.edge.metrics_addr)
    unless_empty c.connector.metrics_addr
        (validate_host_port (text "connector.metrics_addr") c.connector.metrics_addr)
    check_edge_tls c.edge.tls
    check_connector_tls c.connector.edge_data_url c.connector.tls
    reject (is_nil c.routes) no_routes
    check_routes (edge_tls c.edge.tls) 0 [] c.routes
