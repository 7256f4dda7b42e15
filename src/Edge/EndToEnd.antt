-- ===== src/Edge/EndToEnd.antt =====
-- A call through both sides: internal/edge/edge.go sends it, internal/connector answers it, and the
-- client of the edge gets what the connector's handler has made.
use airpc.Prelude.{
  ◌≡◌, refl, sym, ◌∙◌, ap, false, List, Option, none, some, Text, text_eq_refl, is_empty, ℤ, ok,
  arith, if◌then◌else◌,
}
use airpc.Codec.{Codec, RoundTrips, IsTotal}
use airpc.Url.{Url, UrlParser}
use airpc.Tunnel.{Frame}
use airpc.Config.Tokens.{unary_subject}
use airpc.Unary.{
  Request, Response, validate_request, validate_response, encode_request, decode_request,
  decode_response,
}
use airpc.Link.{Link}
use airpc.Connector.{ProxyRoute}
use airpc.Connector.Unaries.{Backend, handle_request, answer}
use airpc.Connector.Replies.{IsDelivered, whole, stand_in, answer-IsDelivered}
use airpc.Edge.{PublicRoute, route_request_limit}
use airpc.Edge.Calls.{
  Call, World, Answer, written, streamed, read_bounded, envelope_of, answer_reply, send_call,
  serve_unary,
}

sent_request :
    (c : Codec Request) (q : Request)
    → RoundTrips c
    → IsTotal c
    → validate_request q ≡ ok tt
    → (b : Text) × (encode_request c q ≡ ok b) × (decode_request c b ≡ ok q)
unfolding encode_request decode_request
sent_request c q rt total v =
    let (b, m) = total q in
    let back = rt q b m in (b, ground (arith, v, m), ground (arith, back, v))

whole_of :
    (response r : Response)
    → validate_response response ≡ ok tt
    → IsDelivered response r
    → r ≡ response
whole_of response r v (whole e) = e
whole_of response r v (stand_in refuses e) = absurd (refuses v)

-- What the client gets of a good reply.
abbrev pub passed_on : Response → Answer
passed_on r = if is_empty r.stream_session_id then written r else streamed r

module _ (qc : Codec Request) (rc : Codec Response) where
  answer_good :
      (id reply : Text) (resp : Response)
      → decode_response rc reply ≡ ok resp
      → resp.request_id ≡ id
      → resp.error ≡ none
      → answer_reply qc rc id reply ≡ passed_on resp
  unfolding answer_reply
  answer_good id reply resp d i e = ground (arith, d, i, e, text_eq_refl id)

  served :
      (w : World) (r : PublicRoute) (suffix : Text) (q : Call) (id body payload reply : Text)
      → read_bounded q.body q.broken (route_request_limit r.cfg) ≡ ok body
      → w.fresh_id ≡ some id
      → encode_request qc (envelope_of r suffix q id w.deadline body) ≡ ok payload
      → w.ask (unary_subject r.cfg.name) payload ≡ ok reply
      → (serve_unary qc rc w r suffix q).answer ≡ answer_reply qc rc id reply
  unfolding serve_unary send_call
  served w r suffix q id body payload reply b f e a = ground (arith, b, f, e, a)

  -- A call whose body fits and whose envelope is valid, and that a connector answers: if the handler
  -- of the connector makes a valid response without an error, then the client gets that response, as
  -- a whole or as a stream.
  pub serve_unary-handle_request :
      (parse_uri : UrlParser) (call : Url → Request → Backend) (fc : Codec Frame)
      (connector_id : Text) (routes : List (Text × ProxyRoute)) (link : Option Link)
      (r : PublicRoute) (suffix : Text) (q : Call) (id body : Text) (deadline : ℤ) (resp : Response)
      → RoundTrips qc
      → IsTotal qc
      → RoundTrips rc
      → IsTotal rc
      → read_bounded q.body q.broken (route_request_limit r.cfg) ≡ ok body
      → validate_request (envelope_of r suffix q id deadline body) ≡ ok tt
      → (handle_request parse_uri call fc qc rc connector_id routes
          (envelope_of r suffix q id deadline body)
          link).0
        ≡ resp
      → validate_response resp ≡ ok tt
      → resp.error ≡ none
      → (serve_unary qc rc
          (record {
            fresh_id = some id;
            deadline = deadline;
            ask = λ subject payload.
                ok (answer parse_uri call fc qc rc connector_id routes payload link).0;
            context_ended = false;
          })
          r
          suffix
          q).answer
        ≡ passed_on resp
  serve_unary-handle_request parse_uri call fc connector_id routes link r suffix q id body deadline
        resp rq tq rr tr fits v made good plain =
      let envelope = envelope_of r suffix q id deadline body in
      let (payload, e, d) = sent_request qc envelope rq tq v in
      let (got, back, ident, delivered) =
        answer-IsDelivered parse_uri call fc qc rc connector_id routes payload envelope link rr tr
          d in
      let same =
        whole_of (handle_request parse_uri call fc qc rc connector_id routes envelope link).0 got
          (rw made good) delivered
        ∙ made in
      let world : World = record {
        fresh_id = some id;
        deadline = deadline;
        ask = λ subject payload.
            ok (answer parse_uri call fc qc rc connector_id routes payload link).0;
        context_ended = false;
      } in
      let reply = (answer parse_uri call fc qc rc connector_id routes payload link).0 in
      served world r suffix q id body payload reply fits refl e refl
      ∙ answer_good id reply resp (back ∙ ap (λ x. ok x) same)
          (sym (ap (λ x. x.request_id) same) ∙ ident) plain
