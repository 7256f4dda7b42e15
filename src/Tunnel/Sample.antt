-- ===== src/Tunnel/Sample.antt =====
-- A concrete codec for the tunnel envelopes, to show that the documented behaviour of MessagePack
-- can be met: every text is written behind its length.
use airpc.Prelude.{
  text_eq, has_prefix, contains_any, elem, runes, is_word, ◌≡◌, refl, Bool, true, false, [], ◌∷◌,
  Option, some, Text, ok,
}
use airpc.Codec.{Codec, RoundTrips, IsTotal}
use airpc.Codec.Fields.{
  ◌>>=◌, put_text, get_text, get_text-put_text, put_int, get_int, get_int-put_int, read, reads_back,
}
use airpc.Tunnel.{
  Frame, OpenRequest, OpenResponse, valid_token, known_kind, validate_route_and_kind,
  error_text_refused, validate_type, validate_frame, open_path_refused, validate_open_request,
  validate_open_response, encode_frame, decode_frame, encode_open_request, decode_open_request,
  encode_open_response, decode_open_response,
}

put_frame : Frame → Text
put_frame f = put_int f.version (
    put_text f.frame_type (
      put_text f.session_id (
        put_text f.route (
          put_text f.kind (
            put_text f.data_kind (
              put_text f.payload
                (put_int f.window (put_int f.close_code (put_text f.error [])))))))))

get_frame : Text → Option Frame
get_frame b = do
  (version, b) ← get_int b
  (frame_type, b) ← get_text b
  (session_id, b) ← get_text b
  (route, b) ← get_text b
  (kind, b) ← get_text b
  (data_kind, b) ← get_text b
  (payload, b) ← get_text b
  (window, b) ← get_int b
  (close_code, b) ← get_int b
  (error, b) ← get_text b
  some (record {
    version = version;
    frame_type = frame_type;
    session_id = session_id;
    route = route;
    kind = kind;
    data_kind = data_kind;
    payload = payload;
    window = window;
    close_code = close_code;
    error = error;
  })

get_frame-put_frame : (f : Frame) → get_frame (put_frame f) ≡ some f
unfolding get_frame put_frame
get_frame-put_frame f = simp (get_int-put_int, get_text-put_text)

put_request : OpenRequest → Text
put_request r = put_int r.version (
    put_text r.request_id (
      put_text r.session_id
        (put_text r.route (put_text r.kind (put_text r.path (put_int r.deadline_unix_ms []))))))

get_request : Text → Option OpenRequest
get_request b = do
  (version, b) ← get_int b
  (request_id, b) ← get_text b
  (session_id, b) ← get_text b
  (route, b) ← get_text b
  (kind, b) ← get_text b
  (path, b) ← get_text b
  (deadline, b) ← get_int b
  some (record {
    version = version;
    request_id = request_id;
    session_id = session_id;
    route = route;
    kind = kind;
    path = path;
    deadline_unix_ms = deadline;
  })

get_request-put_request : (r : OpenRequest) → get_request (put_request r) ≡ some r
unfolding get_request put_request
get_request-put_request r = simp (get_int-put_int, get_text-put_text)

-- The flag is written as a text of length 1 or 0.
put_flag : Bool → Text
put_flag true = 1 ∷ []
put_flag false = []

get_flag : Text → Bool
get_flag [] = false
get_flag (x ∷ s) = true

get_flag-put_flag : (b : Bool) → get_flag (put_flag b) ≡ b
unfolding get_flag put_flag
get_flag-put_flag true = refl
get_flag-put_flag false = refl

put_response : OpenResponse → Text
put_response r = put_int r.version (
    put_text r.request_id
      (put_text (put_flag r.accepted) (put_text r.connector_id (put_text r.error []))))

get_response : Text → Option OpenResponse
get_response b = do
  (version, b) ← get_int b
  (request_id, b) ← get_text b
  (accepted, b) ← get_text b
  (connector_id, b) ← get_text b
  (error, b) ← get_text b
  some (record {
    version = version;
    request_id = request_id;
    accepted = get_flag accepted;
    connector_id = connector_id;
    error = error;
  })

get_response-put_response : (r : OpenResponse) → get_response (put_response r) ≡ some r
unfolding get_response put_response
get_response-put_response r = simp (get_int-put_int, get_text-put_text, get_flag-put_flag)

unfoldable pub frame_codec : Codec Frame
unfolding put_frame get_frame put_text get_text put_int get_int
frame_codec = record { marshal = λ f. ok (put_frame f); unmarshal = λ b. read (get_frame b) }

unfoldable pub request_codec : Codec OpenRequest
unfolding put_request get_request put_text get_text put_int get_int
request_codec = record { marshal = λ f. ok (put_request f); unmarshal = λ b. read (get_request b) }

unfoldable pub response_codec : Codec OpenResponse
unfolding put_response get_response put_flag get_flag put_text get_text put_int get_int
response_codec = record {
  marshal = λ f. ok (put_response f);
  unmarshal = λ b. read (get_response b);
}

pub frame_codec-RoundTrips : RoundTrips frame_codec
unfolding frame_codec
frame_codec-RoundTrips = reads_back put_frame get_frame get_frame-put_frame

pub request_codec-RoundTrips : RoundTrips request_codec
unfolding request_codec
request_codec-RoundTrips = reads_back put_request get_request get_request-put_request

pub response_codec-RoundTrips : RoundTrips response_codec
unfolding response_codec
response_codec-RoundTrips = reads_back put_response get_response get_response-put_response

pub frame_codec-IsTotal : IsTotal frame_codec
unfolding frame_codec
frame_codec-IsTotal x = (put_frame x, refl)

pub request_codec-IsTotal : IsTotal request_codec
unfolding request_codec
request_codec-IsTotal x = (put_request x, refl)

pub response_codec-IsTotal : IsTotal response_codec
unfolding response_codec
response_codec-IsTotal x = (put_response x, refl)

-- All that a test of the envelopes computes with.
unfoldable pub tunnel : Unit {0}
unfolding validate_frame validate_type validate_route_and_kind valid_token known_kind
    error_text_refused open_path_refused validate_open_request validate_open_response encode_frame
    decode_frame encode_open_request decode_open_request encode_open_response decode_open_response
    text_eq has_prefix contains_any elem runes is_word frame_codec request_codec response_codec
tunnel = tt
