-- ===== src/Edge/CallTests.antt =====
-- One call through the edge and the connector, at concrete inputs.
use airpc.Prelude.{◌≡◌, refl, inl, true, List, [], ◌∷◌, ◌++◌, none, some, Text, text, pos, ok, err}
use airpc.Config.Tokens.{unary_subject, cancel_subject}
use airpc.Tunnel.Sample.{frame_codec}
use airpc.Unary.{Request, Response, decode_response}
use airpc.Unary.Sample.{
  request_codec, response_codec, request_codec-RoundTrips, response_codec-RoundTrips,
  request_codec-IsTotal, response_codec-IsTotal,
}
use airpc.Connector.Unaries.{handle_request, answer}
use airpc.Connector.Replies.{IsDelivered, answer-IsDelivered}
use airpc.Edge.{public_route}
use airpc.Edge.Calls.{World, NatsFailure, no_responders, failure, written, envelope_of, serve_unary}
use airpc.Tunnel.{new_frame, frame_data, frame_eof}
use airpc.Connector.Bodies.{copy_body}
use airpc.Edge.Bodies.{bytes_of, arriving, relay_body-copy_body}
use airpc.Edge.Streams.{
  complete, Event, received, session_done, aborted, relay_body, WholeBody, relay_body-WholeBody,
}
use airpc.Edge.Outcomes.{IsTrusted, serve_unary-IsTrusted, serve_unary-cancels}
use airpc.Edge.Registry.{no_tunnels}
use airpc.Headers.Normal.{add_headers}
use airpc.Edge.Recorder.{
  Recorder, informational, send_status, send_bytes, write_header, write, http_error, write_response,
  write_answer, serve_recorded,
}
use airpc.Edge.Counted.{IsAnswered, serve_recorded-IsAnswered}
use airpc.Edge.EndToEnd.{serve_unary-handle_request}
use airpc.Edge.CallSample.{call, api, asking, parser, routes, echo, echoed, world, late}

calls_test :
    ((serve_unary request_codec response_codec
        (record world { ask = λ s p. err no_responders })
        (public_route api)
        (text "/x")
        asking).answer
      ≡ failure 503)
    × ((serve_unary request_codec response_codec world
          (public_route api)
          (text "/x")
          (record asking { body = text "123456789" })).answer
        ≡ failure 413)
    × ((serve_unary request_codec response_codec world (public_route api) (text "x") asking).answer
        ≡ failure 502)
unfolding call
calls_test = (refl, refl, refl)

serve_unary-handle_request_example :
    (serve_unary request_codec response_codec world (public_route api) (text "/x") asking).answer
    ≡ written echoed
unfolding call
serve_unary-handle_request_example =
    serve_unary-handle_request request_codec response_codec parser echo frame_codec (text "c1")
      routes none (public_route api) (text "/x") asking (text "r1") (text "hello") (pos 9) echoed
      request_codec-RoundTrips request_codec-IsTotal response_codec-RoundTrips
      response_codec-IsTotal refl refl refl refl refl

serve_unary-IsTrusted_example : (id : Text) × (some (text "r1") ≡ some id) × IsTrusted id echoed
unfolding call
serve_unary-IsTrusted_example =
    serve_unary-IsTrusted request_codec response_codec world (public_route api) (text "/x") asking
      echoed (inl refl)

serve_unary-cancels_example :
    (id : Text) × (payload : Text) × (some (text "r1") ≡ some id)
    × (text "airpc.v1.cancel.r1" ≡ cancel_subject id)
    × (◌≡◌ {A = List Text} [] [])
    × (true ≡ true)
    × ((serve_unary request_codec response_codec late (public_route api) (text "/x") asking).sent
        ≡ (unary_subject (text "api"), payload) ∷ [])
    × ((e : NatsFailure) × (late.ask (unary_subject (text "api")) payload ≡ err e))
unfolding call
serve_unary-cancels_example =
    serve_unary-cancels request_codec response_codec late (public_route api) (text "/x") asking
      (text "airpc.v1.cancel.r1") [] refl

-- The envelope of the call, and the bytes that the sample codec writes of it.
abbrev envelope : Request
envelope = envelope_of (public_route api) (text "/x") asking (text "r1") (pos 9) (text "hello")

abbrev envelope_bytes : Text
envelope_bytes =
    1
    ∷ 0
    ∷ 2
    ∷ (text "r1"
        ++ 3
          ∷ (text "api"
              ++ 9
                ∷ 0
                ∷ 4
                ∷ (text "POST"
                    ++ 4
                      ∷ (text "http"
                          ++ 4
                            ∷ (text "edge"
                                ++ 2
                                  ∷ (text "/x"
                                      ++ 1
                                        ∷ 6
                                        ∷ (text "Accept"
                                            ++ 1 ∷ 3 ∷ (text "*/*" ++ 5 ∷ text "hello"))))))))

answer-IsDelivered_example :
    (r : Response) × (decode_response response_codec
        (answer parser echo frame_codec request_codec response_codec
          (text "c1")
          routes
          envelope_bytes
          none).0
      ≡ ok r)
    × (r.request_id ≡ text "r1")
    × IsDelivered
        (handle_request parser echo frame_codec request_codec response_codec
          (text "c1")
          routes
          envelope
          none).0
        r
unfolding call
answer-IsDelivered_example =
    answer-IsDelivered parser echo frame_codec request_codec response_codec (text "c1") routes
      envelope_bytes envelope none response_codec-RoundTrips response_codec-IsTotal refl

abbrev chunk : Text → Event
chunk t = received (record (new_frame frame_data (text "s1")) { payload = t }) true

abbrev end_of_stream : Event
end_of_stream = received (new_frame frame_eof (text "s1")) true

streams_test :
    ((relay_body (chunk (text "a") ∷ chunk (text "b") ∷ end_of_stream ∷ [])).body
      ≡ text "a" ∷ text "b" ∷ [])
    × ((relay_body (chunk (text "a") ∷ session_done ∷ [])).ending ≡ aborted)
unfolding call relay_body
streams_test = (refl, refl)

relay_body-WholeBody_example :
    WholeBody
      (chunk (text "a") ∷ end_of_stream ∷ [])
      (relay_body (chunk (text "a") ∷ end_of_stream ∷ []))
unfolding call relay_body
relay_body-WholeBody_example = relay_body-WholeBody (chunk (text "a") ∷ end_of_stream ∷ []) refl

relay_body-copy_body_example :
    (bytes_of
        (relay_body (arriving (copy_body (text "s1") (text "ab" ∷ [] ∷ text "c" ∷ []) true))).body
      ≡ text "abc")
    × ((relay_body (arriving (copy_body (text "s1") (text "ab" ∷ [] ∷ text "c" ∷ []) true))).ending
        ≡ complete)
relay_body-copy_body_example =
    relay_body-copy_body (text "s1") (text "ab" ∷ [] ∷ text "c" ∷ []) true

unfoldable recording : Unit {0}
unfolding call serve_recorded write_answer write_response http_error write_header write send_bytes
    send_status informational add_headers
recording = tt

recorded : World → Recorder
unfolding recording
recorded w =
    serve_recorded request_codec response_codec (text "m") no_tunnels [] [] w (public_route api)
      (text "/x") asking

recorded_test :
    ((recorded world).writer.body ≡ text "hello")
    × ((recorded world).status ≡ pos 200)
    × ((recorded late).status ≡ pos 504)
unfolding recorded
recorded_test = (refl, refl, refl)

serve_recorded-IsAnswered_example :
    IsAnswered no_tunnels [] []
      (recorded world)
      (serve_unary request_codec response_codec world (public_route api) (text "/x") asking).answer
unfolding recorded
serve_recorded-IsAnswered_example =
    serve_recorded-IsAnswered request_codec response_codec (text "m") no_tunnels [] [] world
      (public_route api) (text "/x") asking
