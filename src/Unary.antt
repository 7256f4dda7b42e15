-- ===== src/Unary.antt =====
-- internal/protocol/httpunary/envelope.go: the envelopes of one HTTP call on NATS, their validation
-- and their coding. A header map is a list of names with their values, in the order in which the
-- loop over the map meets them.
pub mod Requests
pub mod Responses
pub mod Sample
mod Tests
use airpc.Prelude.{
  ℕ, Bool, true, false, ◌&&◌, ◌||◌, not, List, [], ◌∷◌, Option, none, some, Text, text, text_eq,
  is_empty, has_prefix, contains_any, runes, is_word, is_token_char, all, ℤ, pos, ltb_ℤ, leb_ℤ,
  eqb_ℤ, Result, ok, err, ◌>>=◌, ◌>>◌, guard, reject, map_err, if◌then◌else◌,
}
use airpc.Codec.{Codec}
use airpc.Tunnel.{line_breaks, breaks_and_hash}

abbrev pub version : ℤ
version = pos 1

abbrev pub Header : Type 0
Header = List (Text × List Text)

pub record Request : Type 0 where
  pub version : ℤ
  pub request_id : Text
  pub route : Text
  pub deadline_unix_ms : ℤ
  pub method : Text
  pub scheme : Text
  pub authority : Text
  pub path : Text
  pub headers : Header
  pub body : Text

pub record Error : Type 0 where
  pub code : Text
  pub message : Text

pub record Response : Type 0 where
  pub version : ℤ
  pub request_id : Text
  pub status : ℤ
  pub headers : Header
  pub body : Text
  pub stream_session_id : Text
  pub connector_id : Text
  pub error : Option Error

-- The errors of validation and coding, one constructor for each message.
pub data Invalid : Type 0 where
  bad_request_version bad_response_version bad_status : ℤ → Invalid
  no_request_id no_route no_deadline bad_deadline bad_authority relative_path bad_path : Invalid
  no_response_id bad_message bad_stream_session bad_connector two_bodies : Invalid
  bad_route bad_method bad_scheme bad_header_name bad_header_value bad_code : Text → Invalid
  not_a_request not_a_response marshal_failed : Text → Invalid

-- `validToken`: by bytes, not by runes.
unfoldable pub valid_token : Text → Bool
valid_token s = all is_token_char s && not (is_empty s)

unfoldable pub validate_route : Text → Result Invalid (Unit {0})
validate_route route = do
  reject (is_empty route) no_route
  guard (all is_word (runes route)) (bad_route route)

unfoldable pub validate_path : Text → Result Invalid (Unit {0})
validate_path path = do
  reject (is_empty path || not (has_prefix path (text "/"))) relative_path
  reject (contains_any path breaks_and_hash) bad_path

-- The inner loop of `validateHeaders`.
unfoldable pub validate_values : Text → List Text → Result Invalid (Unit {0})
validate_values name [] = ok tt
validate_values name (value ∷ values) =
    reject (contains_any value line_breaks) (bad_header_value name) >> validate_values name values

unfoldable pub validate_headers : Header → Result Invalid (Unit {0})
validate_headers [] = ok tt
validate_headers ((name, values) ∷ headers) =
    guard (valid_token name) (bad_header_name name)
    >> validate_values name values
    >> validate_headers headers

-- `time.UnixMilli(ms).Before(time.Unix(0, 0))`
abbrev pub before_epoch : ℤ → Bool
before_epoch ms = ltb_ℤ ms (pos 0)

unfoldable pub validate_request : Request → Result Invalid (Unit {0})
validate_request r = do
  guard (eqb_ℤ r.version version) (bad_request_version r.version)
  reject (is_empty r.request_id) no_request_id
  validate_route r.route
  reject (leb_ℤ r.deadline_unix_ms (pos 0)) no_deadline
  reject (before_epoch r.deadline_unix_ms) bad_deadline
  reject (is_empty r.method || not (valid_token r.method)) (bad_method r.method)
  guard (text_eq r.scheme (text "http") || text_eq r.scheme (text "https")) (bad_scheme r.scheme)
  reject (is_empty r.authority || contains_any r.authority line_breaks) bad_authority
  validate_path r.path
  validate_headers r.headers

unfoldable pub validate_error : Error → Result Invalid (Unit {0})
validate_error e = do
  reject (is_empty e.code || not (valid_token e.code)) (bad_code e.code)
  reject (contains_any e.message line_breaks) bad_message

-- The checks of a response whose body is streamed.
unfoldable pub validate_stream : Response → Result Invalid (Unit {0})
validate_stream r = do
  guard (valid_token r.stream_session_id) bad_stream_session
  guard (valid_token r.connector_id) bad_connector
  guard (is_empty r.body) two_bodies

unfoldable pub validate_reply : Response → Result Invalid (Unit {0})
validate_reply r = do
  reject (ltb_ℤ r.status (pos 100) || ltb_ℤ (pos 999) r.status) (bad_status r.status)
  if is_empty r.stream_session_id then ok tt else validate_stream r
  validate_headers r.headers

unfoldable pub validate_response : Response → Result Invalid (Unit {0})
validate_response r = do
  guard (eqb_ℤ r.version version) (bad_response_version r.version)
  reject (is_empty r.request_id) no_response_id
  elim r.error [ some e ↦ validate_error e | none ↦ validate_reply r ]

-- `NewErrorResponse`
unfoldable pub new_error_response : Text → Text → Text → Response
new_error_response request_id code message = record {
  version = version;
  request_id = request_id;
  status = pos 0;
  headers = [];
  body = [];
  stream_session_id = [];
  connector_id = [];
  error = some (record { code = code; message = message });
}

module _ {A : Type 0} (validate : A → Result Invalid (Unit {0})) (c : Codec A) where
  abbrev encode : A → Result Invalid Text
  encode a = do validate a; map_err marshal_failed (c.marshal a)

  abbrev decode : (Text → Invalid) → Text → Result Invalid A
  decode wrap b = do a ← map_err wrap (c.unmarshal b); validate a; ok a

unfoldable pub encode_request : Codec Request → Request → Result Invalid Text
encode_request c r = encode validate_request c r

unfoldable pub decode_request : Codec Request → Text → Result Invalid Request
decode_request c b = decode validate_request c not_a_request b

unfoldable pub encode_response : Codec Response → Response → Result Invalid Text
encode_response c r = encode validate_response c r

unfoldable pub decode_response : Codec Response → Text → Result Invalid Response
decode_response c b = decode validate_response c not_a_response b
