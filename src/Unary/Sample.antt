-- ===== src/Unary/Sample.antt =====
-- Concrete codecs for the envelopes of a call.
use airpc.Prelude.{
  zero, suc, text_eq, has_prefix, contains_any, elem, runes, is_word, is_token_char, ◌≡◌, refl,
  List, [], ◌∷◌, Option, none, some, Text, ok,
}
use airpc.Codec.{Codec, RoundTrips, IsTotal}
use airpc.Codec.Fields.{
  ◌>>=◌, put_text, get_text, get_text-put_text, put_int, get_int, get_int-put_int, put_list,
  get_list, get_list-put_list, read, reads_back,
}
use airpc.Unary
use airpc.Unary.{
  Header, Request, Response, valid_token, validate_route, validate_path, validate_values,
  validate_headers, validate_request, validate_error, validate_stream, validate_reply,
  validate_response, new_error_response, encode_request, decode_request, encode_response,
  decode_response,
}

put_header : Text × List Text → Text → Text
put_header (name, values) k = put_text name (put_list put_text values k)

get_header : Text → Option ((Text × List Text) × Text)
get_header b = do
  (name, b) ← get_text b
  (values, b) ← get_list get_text b
  some ((name, values), b)

get_header-put_header :
    (h : Text × List Text) (k : Text) → get_header (put_header h k) ≡ some (h, k)
unfolding get_header put_header
get_header-put_header (name, values) k =
    let e = get_text-put_text name (put_list put_text values k) in
    let f = get_list-put_list put_text get_text get_text-put_text values k in rw e (rw f)

put_error : Option Unary.Error → Text → Text
put_error none k = 0 ∷ k
put_error (some e) k = 1 ∷ put_text e.code (put_text e.message k)

get_error : Text → Option (Option Unary.Error × Text)
get_error [] = none
get_error (zero ∷ b) = some (none, b)
get_error (suc _ ∷ b) = do
  (code, b) ← get_text b
  (message, b) ← get_text b
  some (some (record { code = code; message = message }), b)

get_error-put_error : (e : Option Unary.Error) (k : Text) → get_error (put_error e k) ≡ some (e, k)
unfolding get_error put_error
get_error-put_error none k = refl
get_error-put_error (some e) k = simp (get_text-put_text)

put_request : Request → Text
put_request r = put_int r.version (
    put_text r.request_id (
      put_text r.route (
        put_int r.deadline_unix_ms (
          put_text r.method (
            put_text r.scheme (
              put_text r.authority
                (put_text r.path (put_list put_header r.headers (put_text r.body [])))))))))

get_request : Text → Option Request
get_request b = do
  (version, b) ← get_int b
  (request_id, b) ← get_text b
  (route, b) ← get_text b
  (deadline, b) ← get_int b
  (method, b) ← get_text b
  (scheme, b) ← get_text b
  (authority, b) ← get_text b
  (path, b) ← get_text b
  (headers, b) ← get_list get_header b
  (body, b) ← get_text b
  some (record {
    version = version;
    request_id = request_id;
    route = route;
    deadline_unix_ms = deadline;
    method = method;
    scheme = scheme;
    authority = authority;
    path = path;
    headers = headers;
    body = body;
  })

get_headers-put_headers :
    (hs : Header) (k : Text) → get_list get_header (put_list put_header hs k) ≡ some (hs, k)
get_headers-put_headers hs k = get_list-put_list put_header get_header get_header-put_header hs k

get_request-put_request : (r : Request) → get_request (put_request r) ≡ some r
unfolding get_request put_request
get_request-put_request r = simp (get_int-put_int, get_text-put_text, get_headers-put_headers)

put_response : Response → Text
put_response r = put_int r.version (
    put_text r.request_id (
      put_int r.status (
        put_list put_header r.headers (
          put_text r.body
            (put_text r.stream_session_id (put_text r.connector_id (put_error r.error [])))))))

get_response : Text → Option Response
get_response b = do
  (version, b) ← get_int b
  (request_id, b) ← get_text b
  (status, b) ← get_int b
  (headers, b) ← get_list get_header b
  (body, b) ← get_text b
  (stream_session_id, b) ← get_text b
  (connector_id, b) ← get_text b
  (error, b) ← get_error b
  some (record {
    version = version;
    request_id = request_id;
    status = status;
    headers = headers;
    body = body;
    stream_session_id = stream_session_id;
    connector_id = connector_id;
    error = error;
  })

get_response-put_response : (r : Response) → get_response (put_response r) ≡ some r
unfolding get_response put_response
get_response-put_response r =
    simp (get_int-put_int, get_text-put_text, get_headers-put_headers, get_error-put_error)

unfoldable pub request_codec : Codec Request
unfolding put_request get_request put_header get_header put_list get_list put_text get_text put_int
    get_int
request_codec = record { marshal = λ r. ok (put_request r); unmarshal = λ b. read (get_request b) }

unfoldable pub response_codec : Codec Response
unfolding put_response get_response put_error get_error put_header get_header put_list get_list
    put_text get_text put_int get_int
response_codec = record {
  marshal = λ r. ok (put_response r);
  unmarshal = λ b. read (get_response b);
}

pub request_codec-RoundTrips : RoundTrips request_codec
unfolding request_codec
request_codec-RoundTrips = reads_back put_request get_request get_request-put_request

pub response_codec-RoundTrips : RoundTrips response_codec
unfolding response_codec
response_codec-RoundTrips = reads_back put_response get_response get_response-put_response

pub request_codec-IsTotal : IsTotal request_codec
unfolding request_codec
request_codec-IsTotal x = (put_request x, refl)

pub response_codec-IsTotal : IsTotal response_codec
unfolding response_codec
response_codec-IsTotal x = (put_response x, refl)

-- All that a test of the envelopes computes with.
unfoldable pub unary : Unit {0}
unfolding validate_request validate_route validate_path validate_headers validate_values valid_token
    validate_error validate_stream validate_reply validate_response new_error_response
    encode_request decode_request encode_response decode_response text_eq has_prefix contains_any
    elem runes is_word is_token_char request_codec response_codec
unary = tt
