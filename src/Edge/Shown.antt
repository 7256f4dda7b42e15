-- ===== src/Edge/Shown.antt =====
-- What a client has of an error or a response that internal/edge/edge.go writes through its recorder.
use airpc.Prelude.{
  ℕ, ◌≡◌, ◌⊎◌, inl, inr, refl, sym, ap, ◌∙◌, false, ◌&&◌, not, List, [], ◌∷◌, ◌++◌, append_assoc,
  append-nil, Text, text, is_empty, ℤ, pos, insert, arith, if◌then◌else◌, Bool-cases, Option-cases,
}
use airpc.Link.{Link}
use airpc.Unary.{Header, Response}
use airpc.Headers.{is_hop_by_hop, values_of, filter_response}
use airpc.Headers.Values.{collected}
use airpc.Headers.Normal.{add_headers, add_headers-filter_response}
use airpc.Edge.Admission.{claim_stream_session}
use airpc.Edge.Bodies.{bytes_of}
use airpc.Edge.Tunnels.{Tunnels, get}
use airpc.Edge.Streams.{Event, no_stream, relayed, relay_body, serve_streamed_response}
use airpc.Edge.Recorder.{
  Writer, Recorder, informational, answered, new_recorder, send_status, send_bytes, send_flush,
  write_header, write, flush, with_header, http_error, write_response, write_payloads, write_stream,
}

-- What the client has of a response, with a body, and what is counted.
pub record IsShown (resp : Response) (body : Text) (r : Recorder) : Type 0 where
  pub counted : r.status ≡ resp.status
  pub seen : (answered r.writer).0 ≡ (if informational resp.status then pos 200 else resp.status)
  pub values :
      (k : Text)
      → values_of k (answered r.writer).1
        ≡ (if not (is_empty k) && not (is_hop_by_hop k) then collected k resp.headers else [])
  pub whole : r.writer.body ≡ body

begun-answered : (w : Writer) → answered (send_status (pos 200) w) ≡ answered w
unfolding send_status informational
begun-answered w = elim (Option-cases w.sent) [ inl e ↦ rw e refl | inr (x, e) ↦ rw e refl ]

begun-body : (status : ℤ) (w : Writer) → (send_status status w).body ≡ w.body
unfolding send_status
begun-body status w = ground arith

bytes-answered : (b : Text) (w : Writer) → answered (send_bytes b w) ≡ answered w
unfolding send_bytes
bytes-answered b w = begun-answered w

flush-answered : (w : Writer) → answered (send_flush w) ≡ answered w
unfolding send_flush
flush-answered w = begun-answered w

bytes-body : (b : Text) (w : Writer) → (send_bytes b w).body ≡ w.body ++ b
unfolding send_bytes
bytes-body b w = ap (λ t. t ++ b) (begun-body (pos 200) w)

flush-body : (w : Writer) → (send_flush w).body ≡ w.body
unfolding send_flush
flush-body w = begun-body (pos 200) w

flush-flushed : (w : Writer) → (send_flush w).flushed ≡ (send_flush w).body
unfolding send_flush
flush-flushed w = refl

-- The bodies of a stream leave the status and the headers as they are, and are flushed.
record IsStreamed (ps : List Text) (r s : Recorder) : Type 0 where
  pub status : s.status ≡ r.status
  pub answer : answered s.writer ≡ answered r.writer
  pub body : s.writer.body ≡ r.writer.body ++ bytes_of ps
  pub flushed : s.writer.flushed ≡ s.writer.body

write_payloads-IsStreamed :
    (ps : List Text) (r : Recorder)
    → r.writer.flushed ≡ r.writer.body
    → IsStreamed ps r (write_payloads ps r)
unfolding write_payloads write flush
write_payloads-IsStreamed [] r f = record {
  status = refl;
  answer = refl;
  body = sym (append-nil r.writer.body);
  flushed = f;
}
write_payloads-IsStreamed (p ∷ ps) r f =
    let w = send_bytes p r.writer in
    let rest = write_payloads-IsStreamed ps (flush (write p r)) (flush-flushed w) in
    record {
      status = rest.status;
      answer = rest.answer ∙ flush-answered w ∙ bytes-answered p r.writer;
      body =
          rest.body
          ∙ ap (λ t. t ++ bytes_of ps) (flush-body w ∙ bytes-body p r.writer)
          ∙ append_assoc r.writer.body p (bytes_of ps);
      flushed = rest.flushed;
    }

-- The first status of an answer, before which headers were set.
first_status : ℤ → Header → Recorder
first_status status h = write_header status (with_header h new_recorder)

first-counted : (status : ℤ) (h : Header) → (first_status status h).status ≡ status
unfolding first_status write_header
first-counted status h = refl

first-answered :
    (status : ℤ) (h : Header)
    → answered (first_status status h).writer
      ≡ ((if informational status then pos 200 else status), h)
unfolding first_status write_header send_status
first-answered status h = elim (Bool-cases (informational status)) [
  | inl e ↦ rw e (rw (e, send_status) refl)
  | inr e ↦ rw e (rw (e, send_status) refl)
]

first-body :
    (status : ℤ) (h : Header)
    → ((first_status status h).writer.body ≡ []) × ((first_status status h).writer.flushed ≡ [])
unfolding first_status write_header send_status
first-body status h = elim (Bool-cases (informational status)) [
  | inl e ↦ rw (e, send_status) (refl, refl)
  | inr e ↦ rw (e, send_status) (refl, refl)
]

pub http_error-answered :
    (message : Text) (s : ℕ)
    → informational (pos s) ≡ false
    → ((http_error message (pos s) new_recorder).status ≡ pos s)
      × ((answered (http_error message (pos s) new_recorder).writer).0 ≡ pos s)
unfolding http_error write first_status
http_error-answered message s f =
    let typed = insert (text "Content-Type") (text "text/plain; charset=utf-8" ∷ []) [] in
    let h = insert (text "X-Content-Type-Options") (text "nosniff" ∷ []) typed in
    let kept =
      bytes-answered (message ++ text "\n") (first_status (pos s) h).writer
      ∙ first-answered (pos s) h in
    (first-counted (pos s) h, ap (λ a. a.0) kept ∙ rw f refl)

pub write_response-IsShown :
    (resp : Response) → IsShown resp resp.body (write_response resp new_recorder)
unfolding write_response write first_status
write_response-IsShown resp =
    let h = add_headers (filter_response resp.headers) [] in
    let first = first_status resp.status h in
    let kept = bytes-answered resp.body first.writer ∙ first-answered resp.status h in
    record {
      counted = first-counted resp.status h;
      seen = ap (λ a. a.0) kept;
      values = λ k. ap (λ a. values_of k a.1) kept ∙ add_headers-filter_response resp.headers k;
      whole =
          bytes-body resp.body first.writer ∙ ap (λ t. t ++ resp.body) (first-body resp.status h).0;
    }

pub stream-cases :
    (t : Tunnels) (polls : List Link) (events : List Event) (resp : Response)
    → (serve_streamed_response t polls events resp ≡ no_stream)
      ⊎ ((s : ℕ) × (serve_streamed_response t polls events resp
            ≡ relayed resp.status (filter_response resp.headers) (relay_body events) s))
unfolding serve_streamed_response
stream-cases t polls events resp = elim (Option-cases (get resp.connector_id t)) [
  | inl e ↦ rw (e, serve_streamed_response) (inl refl)
  | inr (p, e) ↦ elim (Option-cases (claim_stream_session resp.stream_session_id polls)) [
    | inl c ↦ rw (e, c, serve_streamed_response) (inl refl)
    | inr ((s, l), c) ↦ rw (e, c, serve_streamed_response) (inr (s, refl))
  ]
]

pub write_stream-IsShown :
    (resp : Response) (events : List Event) (s : ℕ)
    → let r =
        write_stream
          (relayed resp.status (filter_response resp.headers) (relay_body events) s)
          new_recorder in
      IsShown resp (bytes_of (relay_body events).body) r × (r.writer.flushed ≡ r.writer.body)
unfolding write_stream first_status
write_stream-IsShown resp events s =
    let h = add_headers (filter_response resp.headers) [] in
    let first = first_status resp.status h in
    let (no_body, no_flush) = first-body resp.status h in
    let ps = (relay_body events).body in
    let st = write_payloads-IsStreamed ps first (no_flush ∙ sym no_body) in
    let kept = st.answer ∙ first-answered resp.status h in
    (
      record {
        counted = st.status ∙ first-counted resp.status h;
        seen = ap (λ a. a.0) kept;
        values = λ k. ap (λ a. values_of k a.1) kept ∙ add_headers-filter_response resp.headers k;
        whole = st.body ∙ ap (λ b. b ++ bytes_of ps) no_body;
      },
      st.flushed,
    )
