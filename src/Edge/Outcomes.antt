-- ===== src/Edge/Outcomes.antt =====
-- What `serveUnary` of internal/edge/edge.go lets through to the client, and when it cancels a call.
use airpc.Prelude.{
  ◌≡◌, refl, sym, inl, inr, true, List, [], ◌∷◌, Option, none, some, Text, text_eq, text_eq_iff, ok,
  err, Result-cases, Option-cases, Bool-cases, arith, ◌⊎◌,
}
use airpc.Codec.{Codec}
use airpc.Config.Tokens.{unary_subject, cancel_subject}
use airpc.Unary
use airpc.Unary.{Request, Response, validate_response, encode_request, decode_response}
use airpc.Unary.Responses.{WellFormedResponse, validate_response_iff}
use airpc.Edge.{PublicRoute, route_request_limit}
use airpc.Edge.Calls.{
  Call, World, Answer, NatsFailure, written, streamed, read_bounded, envelope_of, no_error,
  answer_reply, send_call, serve_unary,
}

-- A response that may go to the client of a call.
pub record IsTrusted (id : Text) (resp : Response) : Type 0 where
  pub same_call : resp.request_id ≡ id
  pub succeeded : resp.error ≡ none
  pub well_formed : WellFormedResponse resp

none_of : (e : Option Unary.Error) → no_error e ≡ true → e ≡ none
none_of none h = refl
none_of (some e) h = absurd (ground arith)

decoded-valid :
    (rc : Codec Response) (r : Response) (b : Text)
    → decode_response rc b ≡ ok r
    → validate_response r ≡ ok tt
unfolding decode_response
decoded-valid rc r b h = ground arith

-- The response in an answer.
abbrev pub Carries : Answer → Response → Type 0
Carries a resp = (a ≡ written resp) ⊎ (a ≡ streamed resp)

module _ (qc : Codec Request) (rc : Codec Response) where
  reply-IsTrusted :
      (id reply : Text) (resp : Response)
      → Carries (answer_reply qc rc id reply) resp
      → IsTrusted id resp
  unfolding answer_reply
  reply-IsTrusted id reply resp h = elim (Result-cases (decode_response rc reply)) [
    | inr (x, e) ↦ absurd (ground (arith, e, h))
    | inl (got, e) ↦ elim (Bool-cases (text_eq got.request_id id)) [
      | inr f ↦ absurd (ground (arith, e, f, h))
      | inl f ↦ elim (Bool-cases (no_error got.error)) [
        | inr g ↦ absurd (ground (arith, e, f, g, h))
        | inl g ↦
            let same : got ≡ resp = ground (arith, e, f, g, h) in
            let w = (validate_response_iff got).0 (decoded-valid rc got reply e) in
            rw (sym same) (record {
              same_call = (text_eq_iff got.request_id id).0 f;
              succeeded = none_of got.error g;
              well_formed = w;
            })
      ]
    ]
  ]

  call-IsTrusted :
      (w : World) (r : PublicRoute) (id payload : Text) (resp : Response)
      → Carries (send_call qc rc w r id payload).answer resp
      → IsTrusted id resp
  unfolding send_call
  call-IsTrusted w r id payload resp h =
      elim (Result-cases (w.ask (unary_subject r.cfg.name) payload)) [
        | inl (reply, e) ↦ reply-IsTrusted id reply resp (ground (arith, e, h))
        | inr (x, e) ↦ absurd (ground (arith, e, h))
      ]

  -- Whatever comes back over NATS: a client only gets a well-formed response to its own call, and
  -- one that reports no error.
  pub serve_unary-IsTrusted :
      (w : World) (r : PublicRoute) (suffix : Text) (q : Call) (resp : Response)
      → Carries (serve_unary qc rc w r suffix q).answer resp
      → (id : Text) × (w.fresh_id ≡ some id) × IsTrusted id resp
  unfolding serve_unary
  serve_unary-IsTrusted w r suffix q resp h =
      elim (Result-cases (read_bounded q.body q.broken (route_request_limit r.cfg))) [
        | inr (x, e) ↦ absurd (ground (arith, e, h))
        | inl (body, e) ↦ elim (Option-cases w.fresh_id) [
          | inl f ↦ absurd (ground (arith, e, f, h))
          | inr (id, f) ↦
              elim (Result-cases (encode_request qc (envelope_of r suffix q id w.deadline body))) [
                | inr (x, g) ↦ absurd (ground (arith, e, f, g, h))
                | inl (payload, g) ↦
                    (id, f, call-IsTrusted w r id payload resp (ground (arith, e, f, g, h)))
              ]
        ]
      ]

  -- A cancel is published only for the call that was sent, once, and only if its request has failed
  -- after the context had ended.
  pub serve_unary-cancels :
      (w : World) (r : PublicRoute) (suffix : Text) (q : Call) (subject : Text) (more : List Text)
      → (serve_unary qc rc w r suffix q).cancelled ≡ subject ∷ more
      → (id : Text) × (payload : Text) × (w.fresh_id ≡ some id)
        × (subject ≡ cancel_subject id)
        × (more ≡ [])
        × (w.context_ended ≡ true)
        × ((serve_unary qc rc w r suffix q).sent ≡ (unary_subject r.cfg.name, payload) ∷ [])
        × ((e : NatsFailure) × (w.ask (unary_subject r.cfg.name) payload ≡ err e))
  unfolding serve_unary send_call
  serve_unary-cancels w r suffix q subject more h =
      elim (Result-cases (read_bounded q.body q.broken (route_request_limit r.cfg))) [
        | inr (x, e) ↦ absurd (ground (arith, e, h))
        | inl (body, e) ↦ elim (Option-cases w.fresh_id) [
          | inl f ↦ absurd (ground (arith, e, f, h))
          | inr (id, f) ↦
              elim (Result-cases (encode_request qc (envelope_of r suffix q id w.deadline body))) [
                | inr (x, g) ↦ absurd (ground (arith, e, f, g, h))
                | inl (payload, g) ↦
                    elim (Result-cases (w.ask (unary_subject r.cfg.name) payload)) [
                      | inl (reply, a) ↦ absurd (ground (arith, e, f, g, a, h))
                      | inr (x, a) ↦ elim (Bool-cases w.context_ended) [
                        | inr k ↦ absurd (ground (arith, e, f, g, a, k, h))
                        | inl k ↦ (
                          id,
                          payload,
                          f,
                          ground (arith, e, f, g, a, k, h),
                          ground (arith, e, f, g, a, k, h),
                          k,
                          ground (arith, e, f, g, a, k),
                          (x, a),
                        )
                      ]
                    ]
              ]
        ]
      ]
