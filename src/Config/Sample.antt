-- ===== src/Config/Sample.antt =====
-- A configuration of internal/config/config.go for the tests, and what its validation runs through.
use airpc.Prelude.{
  none, some, text, text_eq, trim_prefix, has_prefix, runes, is_word, is_token_char, elem,
}
use airpc.Config.Tokens.{
  validate_subject_token, check_runes, valid_header_name, header_runes, cancel_subject,
  request_id_from_cancel_subject,
}
use airpc.Prelude.{
  false, [], ◌∷◌, pos, if◌then◌else◌, contains_any, split_host_port, split_last, split_bracketed,
  split_first, parse_uint, is_digit, decimal, trim_space, trim_left, trim_right, is_space, to_lower,
  lower_char, lookup,
}
use airpc.Url.{UrlParser}
use airpc.Config.Shape
use airpc.Config.Shape.{Config, NatsConfig, EdgeConfig, ConnectorConfig}
use airpc.Config.Tokens.{mode_tcp, valid_mode}
use airpc.Config.Addresses.{
  validate_host_port, validate_path, one_of, validate_nats_url, validate_url_target,
  validate_connector_url, validate_route_target,
}
use airpc.Config.Checks.{
  validate_public_url, validate_route_public_fields, check_headers, route_validate, check_route_tls,
  has_name, check_routes, check_edge_tls, check_connector_tls, config_validate,
}
use airpc.Config.Sizes.{wrap64, span_digits, with_unit, parse_bytes}

unfoldable pub config : Unit {0}
unfolding validate_subject_token check_runes valid_header_name header_runes cancel_subject
    request_id_from_cancel_subject text_eq trim_prefix has_prefix runes is_word is_token_char elem
config = tt

-- A parser that knows the URLs of the configuration below.
abbrev pub parser : UrlParser
parser s =
    if text_eq s (text "nats://nats:4222")
    then some (record {
      scheme = text "nats";
      host = text "nats:4222";
      has_user = false;
      path = [];
      raw_query = [];
    })
    else if text_eq s (text "wss://edge/d")
    then some (record {
      scheme = text "wss";
      host = text "edge";
      has_user = false;
      path = text "/d";
      raw_query = [];
    })
    else none

abbrev pub db : Shape.Route
db = record {
  name = text "db";
  mode = mode_tcp;
  public_host = [];
  public_prefix = [];
  public_path = [];
  listen = text ":5432";
  target = text "db:5432";
  max_inline_request_bytes = pos 0;
  max_inline_response_bytes = pos 0;
  max_request_body_bytes = pos 0;
  max_response_body_bytes = pos 0;
  timeout = pos 0;
  idle_timeout = pos 0;
  forwarded_headers = text "Accept" ∷ [];
  tls = false;
}

abbrev pub accepted : Config
accepted = record {
  nats = record {
    url = text "nats://nats:4222";
    edge_url = [];
    connector_url = [];
    creds_file = [];
  };
  edge = record { http_addr = text ":80"; data_addr = text ":81"; metrics_addr = []; tls = none };
  connector = record {
    edge_data_url = text "wss://edge/d";
    tunnel_token = [];
    metrics_addr = [];
    tls = none;
  };
  routes = db ∷ record db { name = text "cache" } ∷ [];
}

unfoldable pub checks : Unit {0}
unfolding config config_validate check_routes route_validate check_route_tls has_name check_edge_tls
    check_connector_tls check_headers valid_mode validate_route_public_fields validate_public_url
    validate_host_port validate_path validate_nats_url validate_connector_url validate_route_target
    validate_url_target one_of split_host_port split_last split_bracketed split_first parse_uint
    is_digit decimal contains_any parse_bytes span_digits with_unit wrap64 trim_space trim_left
    trim_right is_space to_lower lower_char lookup
checks = tt
