-- ===== src/Edge/Handshake.antt =====
-- The two sides of an open together: internal/edge/data.go asks, internal/connector/connector.go
-- answers, and the edge opens the session.
use airpc.Prelude.{
  ℕ, ◌≡◌, ◌∙◌, ap, true, List, none, some, Text, text_eq_refl, ℤ, lookup, get_elem?, modify, length,
  ok, arith,
}
use airpc.Codec.{Codec, RoundTrips, IsTotal}
use airpc.Tunnel.{
  Frame, OpenRequest, OpenResponse, frame_open, valid_token, validate_frame, validate_type,
  validate_open_request, encode_open_request, decode_open_request, decode_open_response,
}
use airpc.Link.{Link}
use airpc.Config.Shape
use airpc.Connector.{StreamRoute}
use airpc.Connector.Opens.{handle_open_message, open_answer, acceptance, handle_open_message-answer}
use airpc.Edge.Tunnels.{
  Tunnels, Attempt, get, open_on, request_of, frame_of, accept_reply, attempt_open_data_session,
}
use airpc.Edge.Opens.{OpenedSession, open_session-Opened}

frame_of-valid :
    (r : Shape.Route) (session_id path : Text) (deadline : ℤ)
    → validate_open_request (request_of r session_id path deadline) ≡ ok tt
    → validate_frame (frame_of r session_id path) ≡ ok tt
unfolding validate_open_request validate_frame validate_type
frame_of-valid r session_id path deadline h = ground (arith, h, text_eq_refl frame_open)

sent_request :
    (c : Codec OpenRequest) (q : OpenRequest)
    → RoundTrips c
    → IsTotal c
    → validate_open_request q ≡ ok tt
    → (b : Text) × (encode_open_request c q ≡ ok b) × (decode_open_request c b ≡ ok q)
unfolding encode_open_request decode_open_request
sent_request c q rt total v =
    let (b, m) = total q in
    let back = rt q b m in (b, ground (arith, v, m), ground (arith, back, v))

-- The question reaches a connector that answers at once, and nothing else happens meanwhile.
abbrev pub asked : (Text → Text) → Attempt
asked answer = record { ask = λ subject payload. ok (answer payload); meanwhile = λ t. t }

open_on-Opened :
    (fc : Codec Frame) (f : Frame) (id : Text) (t : Tunnels) (p : ℕ) (l : Link)
    → RoundTrips fc
    → IsTotal fc
    → validate_frame f ≡ ok tt
    → get id t ≡ some p
    → get_elem? t.links p ≡ some l
    → l.connected ≡ true
    → lookup f.session_id l.sessions ≡ none
    → (l' : Link) × (open_on fc f id t
        ≡ (ok (p, length l.store), record t { links = modify (λ _. l') p t.links }))
      × OpenedSession fc f l l'
unfolding open_on
open_on-Opened fc f id t p l rt total v reg at up free =
    let (l', e, o) = open_session-Opened fc f l rt total v up free in
    (l', ground (arith, reg, at, e), o)

module _ (fc : Codec Frame) (c : Codec OpenRequest) (d : Codec OpenResponse) where
  accept_answer :
      (r : Shape.Route) (session_id path connector_id reply : Text) (deadline : ℤ) (t : Tunnels)
      → decode_open_response d reply ≡ ok (acceptance session_id connector_id)
      → accept_reply fc c d r session_id path deadline reply t
        ≡ open_on fc (frame_of r session_id path) connector_id t
  unfolding accept_reply
  accept_answer r session_id path connector_id reply deadline t h =
      ground (arith, h, text_eq_refl session_id)

  accepting :
      (id : Text) (routes : List (Text × StreamRoute)) (q : OpenRequest) (sr : StreamRoute)
      → lookup q.route routes ≡ some sr
      → sr.cfg.mode ≡ q.kind
      → open_answer id routes true q ≡ acceptance q.request_id id
  unfolding open_answer
  accepting id routes q sr found mode = ground (arith, found, mode, text_eq_refl q.kind)

  -- A connector that serves the route, and whose tunnel is up on both sides, gets every valid open
  -- request through in one attempt: the edge writes the open frame on the tunnel of that connector,
  -- readable as it was meant, and has the session registered.
  pub handshake-opens :
      (r : Shape.Route) (session_id path id : Text) (deadline : ℤ)
      (routes : List (Text × StreamRoute)) (sr : StreamRoute) (t : Tunnels) (p : ℕ) (l : Link)
      → RoundTrips fc
      → IsTotal fc
      → RoundTrips c
      → IsTotal c
      → RoundTrips d
      → IsTotal d
      → validate_open_request (request_of r session_id path deadline) ≡ ok tt
      → valid_token id ≡ true
      → lookup r.name routes ≡ some sr
      → sr.cfg.mode ≡ r.mode
      → get id t ≡ some p
      → get_elem? t.links p ≡ some l
      → l.connected ≡ true
      → lookup session_id l.sessions ≡ none
      → (l' : Link) × (attempt_open_data_session fc c d r session_id path deadline
            (asked (handle_open_message c d id routes true))
            t
          ≡ (ok (p, length l.store), record t { links = modify (λ _. l') p t.links }))
        × OpenedSession fc (frame_of r session_id path) l l'
  unfolding attempt_open_data_session
  handshake-opens r session_id path id deadline routes sr t p l rf tf rc tc rd td v w found mode reg
        at up free =
      let q = request_of r session_id path deadline in
      let (b, encoded, decoded) = sent_request c q rc tc v in
      let answer =
        handle_open_message-answer c d id routes true b q rd td w decoded
        ∙ ap (λ x. ok x) (accepting id routes q sr found mode) in
      let reply = handle_open_message c d id routes true b in
      let step = accept_answer r session_id path id reply deadline t answer in
      let (l', e, o) =
        open_on-Opened fc (frame_of r session_id path) id t p l rf tf
          (frame_of-valid r session_id path deadline v) reg at up free in
      (l', ground (arith, encoded, step, e), o)
