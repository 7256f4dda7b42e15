-- ===== src/Config/Errors.antt =====
-- The errors of internal/config/config.go, one constructor for each message; a text is the field
-- that the message names, a number the index of a route.
use airpc.Prelude.{ℕ, Text}

pub data Invalid : Type 0 where
  required too_long separator not_a_url bad_scheme has_credentials not_host_port no_host :
      Text → Invalid
  no_port bad_port not_absolute has_query not_a_host negative : Text → Invalid
  bad_character : Text → ℕ → Invalid
  missing_number bad_number unknown_unit : Text → Invalid
  bad_mode : Text → Invalid
  bad_header : ℕ → Text → Invalid
  no_public_path duplicate_name tls_mode tls_without_edge : ℕ → Invalid
  edge_key_pair connector_key_pair connector_not_wss no_routes : Invalid
  decode_failed : Text → Invalid
