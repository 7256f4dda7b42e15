-- ===== src/Edge/Calls.antt =====
-- `serveUnary` of internal/edge/edge.go: one HTTP call, from the request to what the client gets. The
-- body is what reading it yields; NATS, the random id and the clock are parameters.
use airpc.Prelude.{
  ℕ, suc, Bool, true, false, ◌&&◌, ◌||◌, not, List, [], ◌∷◌, Option, none, some, Text, text,
  text_eq, is_empty, length, take, ltb, ◌==◌, ℤ, pos_part, Result, ok, err, if◌then◌else◌,
}
use airpc.Codec.{Codec}
use airpc.Config.Sizes.{max_int64}
use airpc.Config.Tokens.{unary_subject, cancel_subject}
use airpc.Unary
use airpc.Unary.{Header, Request, Response, version, encode_request, decode_response}
use airpc.Headers.{filter_request, values_of, canonical_header_key}
use airpc.Edge.{PublicRoute, route_request_limit}

-- What `serveUnary` reads of an `http.Request`; `broken` if reading the body fails behind `body`.
pub record Call : Type 0 where
  pub method : Text
  pub over_tls : Bool
  pub host : Text
  pub headers : Header
  pub body : Text
  pub broken : Bool

abbrev first : List Text → Text
first [] = []
first (v ∷ vs) = v

-- `req.Header.Get(name)`
unfoldable pub header_get : Text → Header → Text
header_get name h = first (values_of (canonical_header_key name) h)

unfoldable pub request_scheme : Call → Text
unfolding header_get
request_scheme q =
    let scheme = header_get (text "X-Forwarded-Proto") q.headers in
    if q.over_tls
    then text "https"
    else if text_eq scheme (text "https") || text_eq scheme (text "http")
    then scheme
    else text "http"

-- The bytes that `io.LimitReader(body, limit+1)` lets through; the sum wraps around.
abbrev pub allowance : ℤ → ℕ
allowance limit = if pos_part limit == max_int64 then 0 else suc (pos_part limit)

-- `readBounded`: the body, or the status of the answer.
unfoldable pub read_bounded : Text → Bool → ℤ → Result ℕ Text
read_bounded body broken limit =
    let bytes = take (allowance limit) body in
    if broken && ltb (length body) (allowance limit)
    then err 400
    else if ltb (pos_part limit) (length bytes)
    then err 413
    else ok bytes

-- How `nats.Request` fails.
pub data NatsFailure : Type 0 where
  no_responders timed_out failed : NatsFailure

-- The random id, the deadline in Unix milliseconds, the answer to a message on a subject, and whether
-- the context has ended by the time the request has failed.
pub record World : Type 0 where
  pub fresh_id : Option Text
  pub deadline : ℤ
  pub ask : Text → Text → Result NatsFailure Text
  pub context_ended : Bool

pub data Answer : Type 0 where
  failure : ℕ → Answer
  streamed written : Response → Answer

pub record Outcome : Type 0 where
  pub answer : Answer
  pub sent : List (Text × Text)
  pub cancelled : List Text

abbrev pub envelope_of : PublicRoute → Text → Call → Text → ℤ → Text → Request
envelope_of r suffix q request_id deadline body = record {
  version = version;
  request_id = request_id;
  route = r.cfg.name;
  deadline_unix_ms = deadline;
  method = q.method;
  scheme = request_scheme q;
  authority = q.host;
  path = suffix;
  headers = filter_request q.headers r.cfg.forwarded_headers;
  body = body;
}

unfoldable pub failure_status : NatsFailure → Bool → ℕ
failure_status no_responders ended = 503
failure_status timed_out ended = 504
failure_status failed ended = if ended then 504 else 502

abbrev pub no_error : Option Unary.Error → Bool
no_error none = true
no_error (some e) = false

module _ (qc : Codec Request) (rc : Codec Response) where
  -- What follows the reply.
  unfoldable pub answer_reply : Text → Text → Answer
  answer_reply request_id reply = elim (decode_response rc reply) [
    | err e ↦ failure 502
    | ok resp ↦
        if not (text_eq resp.request_id request_id) || not (no_error resp.error)
        then failure 502
        else if is_empty resp.stream_session_id
        then written resp
        else streamed resp
  ]

  -- What follows the encoding.
  unfoldable pub send_call : World → PublicRoute → Text → Text → Outcome
  unfolding answer_reply failure_status
  send_call w r request_id payload = elim (w.ask (unary_subject r.cfg.name) payload) [
    | ok reply ↦ record {
      answer = answer_reply request_id reply;
      sent = (unary_subject r.cfg.name, payload) ∷ [];
      cancelled = [];
    }
    | err e ↦ record {
      answer = failure (failure_status e w.context_ended);
      sent = (unary_subject r.cfg.name, payload) ∷ [];
      cancelled = if w.context_ended then cancel_subject request_id ∷ [] else [];
    }
  ]

  abbrev only : ℕ → Outcome
  only status = record { answer = failure status; sent = []; cancelled = [] }

  unfoldable pub serve_unary : World → PublicRoute → Text → Call → Outcome
  unfolding read_bounded send_call
  serve_unary w r suffix q = elim (read_bounded q.body q.broken (route_request_limit r.cfg)) [
    | err status ↦ only status
    | ok body ↦ elim w.fresh_id [
      | none ↦ only 500
      | some request_id ↦
          elim (encode_request qc (envelope_of r suffix q request_id w.deadline body)) [
            | err e ↦ only 502
            | ok payload ↦ send_call w r request_id payload
          ]
    ]
  ]
