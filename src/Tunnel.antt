-- ===== src/Tunnel.antt =====
-- internal/protocol/tunnel/envelope.go: the frames of the data tunnel and the open envelopes on
-- NATS, their validation and their coding. A Go `error` is a value of `Error`, one constructor for
-- each message; Go's `int` and `int64` fields, which only arrive here and are compared, are `ℤ`.
pub mod Frames
pub mod Opens
pub mod Coding
pub mod Sample
mod Tests
use airpc.Prelude.{
  [], ◌∷◌, ℕ, Bool, true, false, ◌&&◌, ◌||◌, not, Text, text, text_eq, is_empty, has_prefix,
  contains_any, runes, is_word, all, ℤ, pos, ltb_ℤ, leb_ℤ, eqb_ℤ, Result, ok, err, ◌>>=◌, ◌>>◌,
  guard, reject, map_err, if◌then◌else◌,
}
use airpc.Codec.{Codec}

abbrev pub version : ℤ
version = pos 1

abbrev pub frame_open : Text
frame_open = text "open"

abbrev pub frame_data : Text
frame_data = text "data"

abbrev pub frame_eof : Text
frame_eof = text "eof"

abbrev pub frame_window : Text
frame_window = text "window"

abbrev pub frame_close : Text
frame_close = text "close"

abbrev pub frame_error : Text
frame_error = text "error"

abbrev pub kind_tcp : Text
kind_tcp = text "tcp"

abbrev pub kind_websocket : Text
kind_websocket = text "websocket"

abbrev pub kind_grpc : Text
kind_grpc = text "grpc"

abbrev pub kind_http_stream : Text
kind_http_stream = text "http-stream"

abbrev pub data_binary : Text
data_binary = text "binary"

abbrev pub data_text : Text
data_text = text "text"

abbrev pub err_tunnel_not_connected : Text
err_tunnel_not_connected = text "connector data tunnel is not connected"

-- "\r\n", and "\r\n#"
abbrev pub line_breaks : Text
line_breaks = 13 ∷ 10 ∷ []

abbrev pub breaks_and_hash : Text
breaks_and_hash = 13 ∷ 10 ∷ 35 ∷ []

pub record Frame : Type 0 where
  pub version : ℤ
  pub frame_type : Text
  pub session_id : Text
  pub route : Text
  pub kind : Text
  pub data_kind : Text
  pub payload : Text
  pub window : ℤ
  pub close_code : ℤ
  pub error : Text

pub record OpenRequest : Type 0 where
  pub version : ℤ
  pub request_id : Text
  pub session_id : Text
  pub route : Text
  pub kind : Text
  pub path : Text
  pub deadline_unix_ms : ℤ

pub record OpenResponse : Type 0 where
  pub version : ℤ
  pub request_id : Text
  pub accepted : Bool
  pub connector_id : Text
  pub error : Text

pub data Error : Type 0 where
  bad_frame_version bad_open_version bad_response_version : ℤ → Error
  bad_frame_session_id bad_open_request_id bad_open_session_id bad_response_request_id :
      Text → Error
  bad_response_connector_id bad_route bad_kind bad_data_kind bad_frame_type : Text → Error
  bad_window bad_close_code : ℤ → Error
  bad_frame_error bad_open_path bad_open_deadline bad_response_error : Error
  not_a_frame not_an_open_request not_an_open_response marshal_failed : Text → Error

-- `validToken`: the rune loop returns false at the first rune that is no word character.
unfoldable pub valid_token : Text → Bool
valid_token s = if is_empty s then false else all is_word (runes s)

unfoldable pub known_kind : Text → Bool
known_kind k =
    text_eq k kind_tcp
    || text_eq k kind_websocket
    || text_eq k kind_grpc
    || text_eq k kind_http_stream

unfoldable pub validate_route_and_kind : Text → Text → Result Error (Unit {0})
validate_route_and_kind route kind = do
  guard (valid_token route) (bad_route route)
  guard (known_kind kind) (bad_kind kind)

-- An error text is present and stands on one line.
unfoldable pub error_text_refused : Text → Bool
error_text_refused e = is_empty e || contains_any e line_breaks

-- The switch of `Frame.Validate` on the type.
unfoldable pub validate_type : Frame → Result Error (Unit {0})
validate_type f =
    if text_eq f.frame_type frame_open
    then validate_route_and_kind f.route f.kind
    else if text_eq f.frame_type frame_data
    then reject
        (not (is_empty f.data_kind)
          && not (text_eq f.data_kind data_binary)
          && not (text_eq f.data_kind data_text))
        (bad_data_kind f.data_kind)
    else if text_eq f.frame_type frame_eof
    then ok tt
    else if text_eq f.frame_type frame_window
    then reject (leb_ℤ f.window (pos 0)) (bad_window f.window)
    else if text_eq f.frame_type frame_close
    then reject
        (not (eqb_ℤ f.close_code (pos 0))
          && (ltb_ℤ f.close_code (pos 1000) || ltb_ℤ (pos 4999) f.close_code))
        (bad_close_code f.close_code)
    else if text_eq f.frame_type frame_error
    then reject (error_text_refused f.error) bad_frame_error
    else err (bad_frame_type f.frame_type)

unfoldable pub validate_frame : Frame → Result Error (Unit {0})
validate_frame f = do
  guard (eqb_ℤ f.version version) (bad_frame_version f.version)
  guard (valid_token f.session_id) (bad_frame_session_id f.session_id)
  validate_type f

-- `r.Path != "" && (!strings.HasPrefix(r.Path, "/") || strings.ContainsAny(r.Path, "\r\n#"))`
unfoldable pub open_path_refused : Text → Bool
open_path_refused p =
    not (is_empty p) && (not (has_prefix p (text "/")) || contains_any p breaks_and_hash)

-- `time.UnixMilli(ms).Before(time.Unix(0, 0))`
abbrev before_epoch : ℤ → Bool
before_epoch ms = ltb_ℤ ms (pos 0)

unfoldable pub validate_open_request : OpenRequest → Result Error (Unit {0})
validate_open_request r = do
  guard (eqb_ℤ r.version version) (bad_open_version r.version)
  guard (valid_token r.request_id) (bad_open_request_id r.request_id)
  guard (valid_token r.session_id) (bad_open_session_id r.session_id)
  validate_route_and_kind r.route r.kind
  reject (open_path_refused r.path) bad_open_path
  reject (leb_ℤ r.deadline_unix_ms (pos 0) || before_epoch r.deadline_unix_ms) bad_open_deadline

unfoldable pub validate_open_response : OpenResponse → Result Error (Unit {0})
validate_open_response r = do
  guard (eqb_ℤ r.version version) (bad_response_version r.version)
  guard (valid_token r.request_id) (bad_response_request_id r.request_id)
  if r.accepted
      then guard (valid_token r.connector_id) (bad_response_connector_id r.connector_id)
      else reject (error_text_refused r.error) bad_response_error

-- `NewFrame`: the fields that it does not set have Go's zero values.
abbrev pub new_frame : Text → Text → Frame
new_frame frame_type session_id = record {
  version = version;
  frame_type = frame_type;
  session_id = session_id;
  route = [];
  kind = [];
  data_kind = [];
  payload = [];
  window = pos 0;
  close_code = pos 0;
  error = [];
}

-- `EncodeX` and `DecodeX` of one envelope type, over its validation.
module _ {A : Type 0} (validate : A → Result Error (Unit {0})) (c : Codec A) where
  abbrev encode : A → Result Error Text
  encode a = do validate a; map_err marshal_failed (c.marshal a)

  abbrev decode : (Text → Error) → Text → Result Error A
  decode wrap b = do a ← map_err wrap (c.unmarshal b); validate a; ok a

unfoldable pub encode_frame : Codec Frame → Frame → Result Error Text
encode_frame c f = encode validate_frame c f

unfoldable pub decode_frame : Codec Frame → Text → Result Error Frame
decode_frame c b = decode validate_frame c not_a_frame b

unfoldable pub encode_open_request : Codec OpenRequest → OpenRequest → Result Error Text
encode_open_request c r = encode validate_open_request c r

unfoldable pub decode_open_request : Codec OpenRequest → Text → Result Error OpenRequest
decode_open_request c b = decode validate_open_request c not_an_open_request b

unfoldable pub encode_open_response : Codec OpenResponse → OpenResponse → Result Error Text
encode_open_response c r = encode validate_open_response c r

unfoldable pub decode_open_response : Codec OpenResponse → Text → Result Error OpenResponse
decode_open_response c b = decode validate_open_response c not_an_open_response b
