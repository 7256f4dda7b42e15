-- ===== src/Edge/Recorder.antt =====
-- What the handler of a call in internal/edge/edge.go writes to its client, through the
-- `statusRecorder` that keeps the status for the metrics. The writer below it is net/http's.
use airpc.Prelude.{
  Bool, true, false, ◌&&◌, not, List, [], ◌∷◌, ◌++◌, Option, none, some, Text, text, ℤ, pos, leb_ℤ,
  eqb_ℤ, insert,
}
use airpc.Codec.{Codec}
use airpc.Link.{Link}
use airpc.Unary.{Header, Request, Response}
use airpc.Headers.{filter_response}
use airpc.Headers.Normal.{add_headers}
use airpc.Edge.{PublicRoute}
use airpc.Edge.Tunnels.{Tunnels}
use airpc.Edge.Streams.{Event, StreamAnswer, no_stream, relayed, serve_streamed_response}
use airpc.Edge.Calls.{Call, World, Answer, failure, written, streamed, serve_unary}

-- The writer of net/http: the header map, the status and the headers that have gone out, the statuses
-- that announce another one, the bytes that were handed to it, and those that were flushed.
pub record Writer : Type 0 where
  pub header : Header
  pub sent : Option (ℤ × Header)
  pub announced : List ℤ
  pub body : Text
  pub flushed : Text

abbrev pub fresh_writer : Writer
fresh_writer = record { header = []; sent = none; announced = []; body = []; flushed = [] }

-- Statuses of 1xx go out at once and are not the status of the answer, but for 101.
unfoldable pub informational : ℤ → Bool
informational status =
    leb_ℤ (pos 100) status && leb_ℤ status (pos 199) && not (eqb_ℤ status (pos 101))

-- `WriteHeader` of net/http: only the first status of an answer counts.
unfoldable pub send_status : ℤ → Writer → Writer
unfolding informational
send_status status w = elim w.sent [
  | some sent ↦ w
  | none ↦ elim (informational status) [
    | true ↦ record w { announced = w.announced ++ status ∷ [] }
    | false ↦ record w { sent = some (status, w.header) }
  ]
]

-- `Write` of net/http: bytes and a flush send the status 200 before them, if none has gone out.
unfoldable pub send_bytes : Text → Writer → Writer
unfolding send_status
send_bytes bytes w =
    let begun = send_status (pos 200) w in record begun { body = begun.body ++ bytes }

-- `Flush` of net/http
unfoldable pub send_flush : Writer → Writer
unfolding send_status
send_flush w = let begun = send_status (pos 200) w in record begun { flushed = begun.body }

-- The status and the headers that the client has in the end.
abbrev pub answered : Writer → ℤ × Header
answered w = elim w.sent [ some sent ↦ sent | none ↦ (pos 200, w.header) ]

-- `statusRecorder`
pub record Recorder : Type 0 where
  pub status : ℤ
  pub writer : Writer

abbrev pub new_recorder : Recorder
new_recorder = record { status = pos 200; writer = fresh_writer }

unfoldable pub write_header : ℤ → Recorder → Recorder
unfolding send_status
write_header code r = record { status = code; writer = send_status code r.writer }

unfoldable pub flush : Recorder → Recorder
unfolding send_flush
flush r = record r { writer = send_flush r.writer }

-- `Write`, which is the one of the embedded writer.
unfoldable pub write : Text → Recorder → Recorder
unfolding send_bytes
write bytes r = record r { writer = send_bytes bytes r.writer }

abbrev pub with_header : Header → Recorder → Recorder
with_header h r = record r { writer = record r.writer { header = h } }

-- `http.Error(w, message, code)`
unfoldable pub http_error : Text → ℤ → Recorder → Recorder
unfolding write_header write
http_error message code r =
    let typed =
      insert (text "Content-Type") (text "text/plain; charset=utf-8" ∷ []) r.writer.header in
    let h = insert (text "X-Content-Type-Options") (text "nosniff" ∷ []) typed in
    write (message ++ text "\n") (write_header code (with_header h r))

unfoldable pub write_response : Response → Recorder → Recorder
unfolding write_header write
write_response resp r =
    let h = add_headers (filter_response resp.headers) r.writer.header in
    write resp.body (write_header resp.status (with_header h r))

-- Every payload is flushed as it is written.
unfoldable pub write_payloads : List Text → Recorder → Recorder
unfolding write flush
write_payloads [] r = r
write_payloads (payload ∷ payloads) r = write_payloads payloads (flush (write payload r))

unfoldable pub write_stream : StreamAnswer → Recorder → Recorder
unfolding http_error write_payloads
write_stream no_stream r = http_error (text "connector stream unavailable") (pos 502) r
write_stream (relayed status headers body session) r =
    write_payloads body.body
      (write_header status (with_header (add_headers headers r.writer.header) r))

-- The message of a failure is its own in each place.
unfoldable pub write_answer : Text → Tunnels → List Link → List Event → Answer → Recorder → Recorder
unfolding http_error write_response write_stream serve_streamed_response
write_answer message t polls events (failure status) r = http_error message (pos status) r
write_answer message t polls events (written resp) r = write_response resp r
write_answer message t polls events (streamed resp) r =
    write_stream (serve_streamed_response t polls events resp) r

-- What is written of a call; the deferred function counts one request under the name of the route and
-- the status of the recorder.
unfoldable pub serve_recorded :
    Codec Request
    → Codec Response
    → Text
    → Tunnels
    → List Link
    → List Event
    → World
    → PublicRoute
    → Text
    → Call
    → Recorder
unfolding serve_unary write_answer
serve_recorded qc rc message t polls events w r suffix q =
    write_answer message t polls events (serve_unary qc rc w r suffix q).answer new_recorder
