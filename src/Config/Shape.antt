-- ===== src/Config/Shape.antt =====
-- The records of internal/config/config.go. The sizes are int64 and the durations are nanoseconds
-- in an int64; both are kept as integers, and what reads them from YAML keeps them in range.
use airpc.Prelude.{Bool, List, Option, Text, ℤ, pos, ltb_ℤ, is_empty, if◌then◌else◌}

pub record NatsConfig : Type 0 where
  pub url : Text
  pub edge_url : Text
  pub connector_url : Text
  pub creds_file : Text

pub record TlsServerConfig : Type 0 where
  pub cert_file : Text
  pub key_file : Text
  pub client_ca_file : Text

pub record TlsClientConfig : Type 0 where
  pub ca_file : Text
  pub cert_file : Text
  pub key_file : Text
  pub server_name : Text

pub record EdgeConfig : Type 0 where
  pub http_addr : Text
  pub data_addr : Text
  pub metrics_addr : Text
  pub tls : Option TlsServerConfig

pub record ConnectorConfig : Type 0 where
  pub edge_data_url : Text
  pub tunnel_token : Text
  pub metrics_addr : Text
  pub tls : Option TlsClientConfig

pub record Route : Type 0 where
  pub name : Text
  pub mode : Text
  pub public_host : Text
  pub public_prefix : Text
  pub public_path : Text
  pub listen : Text
  pub target : Text
  pub max_inline_request_bytes : ℤ
  pub max_inline_response_bytes : ℤ
  pub max_request_body_bytes : ℤ
  pub max_response_body_bytes : ℤ
  pub timeout : ℤ
  pub idle_timeout : ℤ
  pub forwarded_headers : List Text
  pub tls : Bool

pub record Config : Type 0 where
  pub nats : NatsConfig
  pub edge : EdgeConfig
  pub connector : ConnectorConfig
  pub routes : List Route

unfoldable pub edge_url_or_default : NatsConfig → Text
edge_url_or_default n = if is_empty n.edge_url then n.url else n.edge_url

unfoldable pub connector_url_or_default : NatsConfig → Text
connector_url_or_default n = if is_empty n.connector_url then n.url else n.connector_url

unfoldable pub max_inline_request : Route → ℤ
max_inline_request r =
    if ltb_ℤ (pos 0) r.max_inline_request_bytes
    then r.max_inline_request_bytes
    else r.max_request_body_bytes

unfoldable pub max_inline_response : Route → ℤ
max_inline_response r =
    if ltb_ℤ (pos 0) r.max_inline_response_bytes
    then r.max_inline_response_bytes
    else r.max_response_body_bytes
