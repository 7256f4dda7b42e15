-- ===== src/Edge/Counted.antt =====
-- What a client gets of a call in internal/edge/edge.go, and which status is counted for it.
use airpc.Prelude.{
  ℕ, ◌≡◌, inl, inr, refl, sym, subst, Bool, true, false, List, err, Text, text, ℤ, pos, arith,
  Option-cases, Result-cases,
}
use airpc.Codec.{Codec}
use airpc.Link.{Link}
use airpc.Unary.{Request, Response, encode_request}
use airpc.Config.Tokens.{unary_subject}
use airpc.Edge.{PublicRoute, route_request_limit}
use airpc.Edge.Bodies.{bytes_of}
use airpc.Edge.Tunnels.{Tunnels}
use airpc.Edge.Streams.{Event, no_stream, relay_body, serve_streamed_response}
use airpc.Edge.Calls.{
  Call, World, Answer, failure, written, streamed, read_bounded, envelope_of, NatsFailure,
  no_responders, timed_out, failed, failure_status, answer_reply, send_call, serve_unary,
}
use airpc.Edge.Recorder.{
  Recorder, informational, answered, new_recorder, write_stream, write_answer, serve_recorded,
}
use airpc.Edge.Shown.{
  IsShown, http_error-answered, write_response-IsShown, stream-cases, write_stream-IsShown,
}

failure-plain :
    (e : NatsFailure) (ended : Bool) → informational (pos (failure_status e ended)) ≡ false
unfolding failure_status informational
failure-plain no_responders ended = refl
failure-plain timed_out ended = refl
failure-plain failed true = refl
failure-plain failed false = refl

bounded-plain :
    (body : Text) (broken : Bool) (limit : ℤ) (s : ℕ)
    → read_bounded body broken limit ≡ err s
    → informational (pos s) ≡ false
unfolding read_bounded informational
bounded-plain body broken limit s h = ground (arith, h)

plain_500 : informational (pos 500) ≡ false
unfolding informational
plain_500 = refl

plain_502 : informational (pos 502) ≡ false
unfolding informational
plain_502 = refl

module _ (qc : Codec Request) (rc : Codec Response) where
  reply-plain :
      (id reply : Text) (s : ℕ)
      → answer_reply qc rc id reply ≡ failure s
      → informational (pos s) ≡ false
  unfolding answer_reply informational
  reply-plain id reply s h = ground (arith, h)

  call-plain :
      (w : World) (r : PublicRoute) (id payload : Text) (s : ℕ)
      → (send_call qc rc w r id payload).answer ≡ failure s
      → informational (pos s) ≡ false
  unfolding send_call
  call-plain w r id payload s h = elim (Result-cases (w.ask (unary_subject r.cfg.name) payload)) [
    | inl (reply, e) ↦ reply-plain id reply s (ground (arith, e, h))
    | inr (x, e) ↦ ground (arith, e, h, failure-plain x w.context_ended)
  ]

  refusal-plain :
      (w : World) (r : PublicRoute) (suffix : Text) (q : Call) (s : ℕ)
      → (serve_unary qc rc w r suffix q).answer ≡ failure s
      → informational (pos s) ≡ false
  unfolding serve_unary
  refusal-plain w r suffix q s h =
      elim (Result-cases (read_bounded q.body q.broken (route_request_limit r.cfg))) [
        | inr (x, e) ↦
            let b = bounded-plain q.body q.broken (route_request_limit r.cfg) x e in
            ground (arith, e, h, b)
        | inl (body, e) ↦ elim (Option-cases w.fresh_id) [
          | inl f ↦ ground (arith, e, f, h, plain_500)
          | inr (id, f) ↦
              elim (Result-cases (encode_request qc (envelope_of r suffix q id w.deadline body))) [
                | inr (x, g) ↦ ground (arith, e, f, g, h, plain_502)
                | inl (payload, g) ↦ call-plain w r id payload s (ground (arith, e, f, g, h))
              ]
        ]
      ]

-- What is written for an answer: an error, whose status is counted and seen, or a response with its
-- body, inline or from a stream, of which every byte is flushed.
pub data IsAnswered (t : Tunnels) (polls : List Link) (events : List Event) (r : Recorder)
    : Answer → Type 0 where
  refused :
      (s : ℕ)
      → r.status ≡ pos s
      → (answered r.writer).0 ≡ pos s
      → IsAnswered t polls events r (failure s)
  inline : (resp : Response) → IsShown resp resp.body r → IsAnswered t polls events r (written resp)
  no_session :
      (resp : Response)
      → serve_streamed_response t polls events resp ≡ no_stream
      → r.status ≡ pos 502
      → (answered r.writer).0 ≡ pos 502
      → IsAnswered t polls events r (streamed resp)
  from_session :
      (resp : Response)
      → IsShown resp (bytes_of (relay_body events).body) r
      → r.writer.flushed ≡ r.writer.body
      → IsAnswered t polls events r (streamed resp)

write_answer-IsAnswered :
    (message : Text) (t : Tunnels) (polls : List Link) (events : List Event) (a : Answer)
    → ((s : ℕ) → a ≡ failure s → informational (pos s) ≡ false)
    → IsAnswered t polls events (write_answer message t polls events a new_recorder) a
unfolding write_answer write_stream
write_answer-IsAnswered message t polls events (failure s) plain =
    let (counted, seen) = http_error-answered message s (plain s refl) in refused s counted seen
write_answer-IsAnswered message t polls events (written resp) plain =
    inline resp (write_response-IsShown resp)
write_answer-IsAnswered message t polls events (streamed resp) plain =
    elim (stream-cases t polls events resp) [
      | inl e ↦
          let (counted, seen) =
            http_error-answered (text "connector stream unavailable") 502 plain_502 in
          subst (λ x. IsAnswered t polls events (write_stream x new_recorder) (streamed resp))
            (sym e) (no_session resp e counted seen)
      | inr (s, e) ↦
          let (shown, flushed) = write_stream-IsShown resp events s in
          subst (λ x. IsAnswered t polls events (write_stream x new_recorder) (streamed resp))
            (sym e) (from_session resp shown flushed)
    ]

-- Whatever comes of a call: a refusal reaches the client with the very status that is counted, and a
-- response with its status, which is counted, its end-to-end headers, and its body, from the reply or
-- from the session, of which every byte is flushed. If the session cannot be claimed, 502 is seen and
-- counted; and a status of 1xx but 101 is counted as it is, while the client sees 200.
pub serve_recorded-IsAnswered :
    (qc : Codec Request) (rc : Codec Response) (message : Text) (t : Tunnels) (polls : List Link)
    (events : List Event) (w : World) (r : PublicRoute) (suffix : Text) (q : Call)
    → IsAnswered t polls events
        (serve_recorded qc rc message t polls events w r suffix q)
        (serve_unary qc rc w r suffix q).answer
unfolding serve_recorded
serve_recorded-IsAnswered qc rc message t polls events w r suffix q =
    write_answer-IsAnswered message t polls events (serve_unary qc rc w r suffix q).answer
      (refusal-plain qc rc w r suffix q)
