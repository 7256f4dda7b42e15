-- ===== src/Config/Addresses.antt =====
-- internal/config/config.go: the checks of addresses, URLs and paths.
use airpc.Prelude.{
  Bool, false, ◌&&◌, ◌||◌, not, List, [], ◌∷◌, none, some, Text, text, text_eq, is_empty,
  has_prefix, contains_any, split_host_port, parse_uint, Result, ok, err, ◌>>=◌, ◌>>◌, reject,
  guard, if◌then◌else◌,
}
use airpc.Url.{Url, UrlParser}
use airpc.Config.Errors.{
  Invalid, required, not_a_url, bad_scheme, has_credentials, not_host_port, no_host, no_port,
  bad_port, not_absolute, has_query,
}
use airpc.Config.Tokens.{mode_http, mode_grpc, mode_websocket, mode_tcp}

unfoldable pub validate_host_port : Text → Text → Result Invalid (Unit {0})
validate_host_port field value = do
  reject (is_empty value) (required field)
  elim (split_host_port value) [
    | none ↦ err (not_host_port field)
    | some (host, port) ↦ do
      reject (is_empty host && not (has_prefix value (text ":"))) (no_host field)
      reject (is_empty port) (no_port field)
      elim (parse_uint 65535 port) [ some n ↦ ok tt | none ↦ err (bad_port field) ]
  ]

unfoldable pub validate_path : Text → Text → Result Invalid (Unit {0})
validate_path field value = if is_empty value then ok tt else do
  guard (has_prefix value (text "/")) (not_absolute field)
  reject (contains_any value (text "?#")) (has_query field)

-- The cases of a switch, or the loop over `schemes`.
unfoldable pub one_of : Text → List Text → Bool
one_of s [] = false
one_of s (t ∷ ts) = text_eq s t || one_of s ts

module _ (parse : UrlParser) where
  -- A parsed URL with a scheme and a host.
  abbrev parsed : Text → Text → Result Invalid Url
  parsed field raw = elim (parse raw) [
    | none ↦ err (not_a_url field)
    | some u ↦ if is_empty u.scheme || is_empty u.host then err (not_a_url field) else ok u
  ]

  unfoldable pub validate_nats_url : Text → Text → Result Invalid (Unit {0})
  unfolding one_of
  validate_nats_url field raw = do
    reject (is_empty raw) (required field)
    u ← parsed field raw
    guard (one_of u.scheme (text "nats" ∷ text "tls" ∷ text "ws" ∷ text "wss" ∷ []))
        (bad_scheme field)

  unfoldable pub validate_url_target : Text → Text → List Text → Result Invalid (Unit {0})
  unfolding one_of
  validate_url_target field raw schemes = do
    u ← parsed field raw
    reject u.has_user (has_credentials field)
    guard (one_of u.scheme schemes) (bad_scheme field)

  unfoldable pub validate_connector_url : Text → Result Invalid (Unit {0})
  unfolding one_of
  validate_connector_url raw = do
    reject (is_empty raw) (required (text "connector.edge_data_url"))
    u ← parsed (text "connector.edge_data_url") raw
    reject u.has_user (has_credentials (text "connector.edge_data_url"))
    guard (one_of u.scheme (text "ws" ∷ text "wss" ∷ []))
        (bad_scheme (text "connector.edge_data_url"))

  unfoldable pub validate_route_target : Text → Text → Text → Result Invalid (Unit {0})
  unfolding validate_url_target validate_host_port
  validate_route_target field mode raw =
      if text_eq mode mode_http
      then validate_url_target field raw (text "http" ∷ text "https" ∷ [])
      else if text_eq mode mode_websocket
      then validate_url_target field raw (text "ws" ∷ text "wss" ∷ [])
      else if text_eq mode mode_tcp || text_eq mode mode_grpc
      then validate_host_port field raw
      else ok tt
