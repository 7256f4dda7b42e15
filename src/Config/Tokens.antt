-- ===== src/Config/Tokens.antt =====
-- internal/config/config.go: route names, connector and request ids, header names, and the NATS
-- subjects that are made of them.
use airpc.Prelude.{
  ℕ, ◌%◌, Bool, true, false, ◌||◌, not, List, [], ◌∷◌, ◌++◌, Option, none, some, Text, text,
  text_eq, is_empty, trim_prefix, runes, is_word, is_token_char, length, ltb, ◌==◌, Result, ok, err,
  ◌>>◌, reject, if◌then◌else◌,
}
use airpc.Config.Errors.{Invalid, required, too_long, separator, bad_character}

abbrev pub mode_http : Text
mode_http = text "http"

abbrev pub mode_grpc : Text
mode_grpc = text "grpc"

abbrev pub mode_websocket : Text
mode_websocket = text "websocket"

abbrev pub mode_tcp : Text
mode_tcp = text "tcp"

unfoldable pub valid_mode : Text → Bool
valid_mode m =
    text_eq m mode_http || text_eq m mode_grpc || text_eq m mode_websocket || text_eq m mode_tcp

-- The rune loop of `ValidateSubjectToken`.
unfoldable pub check_runes : Text → List ℕ → Result Invalid (Unit {0})
check_runes field [] = ok tt
check_runes field (r ∷ rs) =
    if r == b'*' || r == b'>' || r == b'.'
    then err (separator field)
    else if is_word r
    then check_runes field rs
    else err (bad_character field r)

unfoldable pub validate_subject_token : Text → Text → Result Invalid (Unit {0})
validate_subject_token field value = do
  reject (is_empty value) (required field)
  reject (ltb 128 (length value)) (too_long field)
  check_runes field (runes value)

-- The rune loop of `validHeaderName`; `byte(r)` keeps the low eight bits.
unfoldable pub header_runes : List ℕ → Bool
header_runes [] = true
header_runes (r ∷ rs) =
    if ltb 0x7F r || not (is_token_char (r % 256)) then false else header_runes rs

unfoldable pub valid_header_name : Text → Bool
valid_header_name value = if is_empty value then false else header_runes (runes value)

unfoldable pub unary_subject : Text → Text
unary_subject name = text "airpc.v1.route." ++ (name ++ text ".unary")

unfoldable pub open_subject : Text → Text
open_subject name = text "airpc.v1.route." ++ (name ++ text ".open")

unfoldable pub queue_group : Text → Text
queue_group name = text "airpc.route." ++ (name ++ text ".connectors")

abbrev pub cancel_subject_prefix : Text
cancel_subject_prefix = text "airpc.v1.cancel."

unfoldable pub cancel_subject : Text → Text
cancel_subject request_id = cancel_subject_prefix ++ request_id

abbrev pub is_ok : Result Invalid (Unit {0}) → Bool
is_ok (ok u) = true
is_ok (err e) = false

-- `RequestIDFromCancelSubject`; `none` is `("", false)`.
unfoldable pub request_id_from_cancel_subject : Text → Option Text
request_id_from_cancel_subject subject =
    let request_id = trim_prefix subject cancel_subject_prefix in
    if text_eq request_id subject
      || not (is_ok (validate_subject_token (text "request_id") request_id))
    then none
    else some request_id
