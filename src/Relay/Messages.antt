-- ===== src/Relay/Messages.antt =====
-- Two WebSocket relays of internal/datatunnel/relay.go behind one another: which messages and which close
-- reach the other end.
use airpc.Prelude.{
  ◌≡◌, inl, inr, refl, sym, ◌∙◌, ap, subst, Bool, true, false, ◌||◌, Option, none, some, List, [],
  ◌∷◌, ◌++◌, append_assoc, append-nil, Text, text_eq, if◌then◌else◌, ℤ, pos, eqb_ℤ, arith,
  Bool-cases,
}
use airpc.Tunnel.{Frame, frame_data, frame_eof, frame_close, frame_error, data_binary, data_text}
use airpc.Session.{data_of, close_of, close_code_of}
use airpc.Relay.WebSockets.{
  text_message, binary_message, other_message, Message, WsEvent, context_done, session_done,
  read_message, read_over, received, idle_fired, WsRelay, is_bad_code, reading_over, take_ws_frame,
  live_ws_step, ws_step, relay_websocket,
}

-- A message of data, as the list of itself.
abbrev pub as_data : Message → List Message
as_data (text_message, payload) = (text_message, payload) ∷ []
as_data (binary_message, payload) = (binary_message, payload) ∷ []
as_data (other_message, payload) = []

-- What an event adds to the messages of data that the socket has sent.
abbrev pub heard_at : WsEvent → List Message
heard_at (read_message m) = as_data m
heard_at context_done = []
heard_at session_done = []
heard_at (read_over reason) = []
heard_at (received f writable) = []
heard_at (idle_fired expired) = []

-- The close message of a close: none of a code that is missing, or that no frame can carry.
abbrev pub with_code : (ℤ → Text → Text) → Option (ℤ × Text) → Option Text
with_code format_close_message none = none
with_code format_close_message (some (code, reason)) =
    if eqb_ℤ code (pos 0) || is_bad_code code then none else some (format_close_message code reason)

unfoldable pub frame_of : Text → Message → List Frame
frame_of id (text_message, payload) = data_of id data_text payload ∷ []
frame_of id (binary_message, payload) = data_of id data_binary payload ∷ []
frame_of id (other_message, payload) = []

unfoldable pub frames_of : Text → List Message → List Frame
frames_of id [] = []
frames_of id (m ∷ ms) = frame_of id m ++ frames_of id ms

-- The close of the socket that an event tells of.
abbrev pub closing_at : WsEvent → Option (ℤ × Text)
closing_at (read_over reason) = reason
closing_at context_done = none
closing_at session_done = none
closing_at (read_message m) = none
closing_at (received f writable) = none
closing_at (idle_fired expired) = none

abbrev or_else : Option (ℤ × Text) → Option (ℤ × Text) → Option (ℤ × Text)
or_else none o = o
or_else (some c) o = some c

-- What a relay that is over has sent last.
abbrev pub end_frames : Text → Option (ℤ × Text) → List Frame
end_frames id none = close_of id ∷ []
end_frames id (some (code, reason)) =
    if is_bad_code code then close_of id ∷ [] else close_code_of id code reason ∷ close_of id ∷ []

abbrev pub tail_of : Text → Bool → Option (ℤ × Text) → List Frame
tail_of id true reason = []
tail_of id false reason = end_frames id reason

frames_of-append :
    (id : Text) (ms ns : List Message)
    → frames_of id (ms ++ ns) ≡ frames_of id ms ++ frames_of id ns
unfolding frames_of
frames_of-append id [] ns = refl
frames_of-append id (m ∷ ms) ns =
    ap (λ l. frame_of id m ++ l) (frames_of-append id ms ns)
    ∙ sym (append_assoc (frame_of id m) (frames_of id ms) (frames_of id ns))

module _ (format_close_message : ℤ → Text → Text) where
  -- The messages of data that the socket has sent while the relay ran, in order.
  unfoldable pub heard : Text → WsRelay → List WsEvent → List Message
  heard id r [] = []
  heard id r (e ∷ es) =
      let rest = heard id (ws_step format_close_message id r e) es in
      if r.running then heard_at e ++ rest else rest

  -- The close with which the socket has ended the relay, if it did.
  unfoldable pub ended_by : Text → WsRelay → List WsEvent → Option (ℤ × Text)
  ended_by id r [] = none
  ended_by id r (e ∷ es) =
      let rest = ended_by id (ws_step format_close_message id r e) es in
      if r.running then or_else (closing_at e) rest else rest

  -- What one event does to a relay that runs.
  data Effect (id : Text) (r : WsRelay) (e : WsEvent) (t : WsRelay) : Type 0 where
    goes_on :
        t.running ≡ true
        → closing_at e ≡ none
        → t.sent ≡ r.sent ++ frames_of id (heard_at e)
        → Effect id r e t
    stops :
        t.running ≡ false
        → heard_at e ≡ []
        → t.sent ≡ r.sent ++ end_frames id (closing_at e)
        → Effect id r e t

  module _ (id : Text) (r : WsRelay) (running : r.running ≡ true) where
    frame-Effect :
        (f : Frame) (w : Bool)
        → Effect id r (received f w) (take_ws_frame format_close_message id f w r)
    unfolding take_ws_frame frames_of
    frame-Effect f w = elim (Bool-cases (text_eq f.frame_type frame_data)) [
      | inl d ↦ elim (Bool-cases w) [
        | inl o ↦ goes_on (ground arith) refl (ground (arith, append-nil r.sent))
        | inr o ↦ stops (ground arith) refl (ground arith)
      ]
      | inr d ↦ elim (Bool-cases (text_eq f.frame_type frame_close)) [
        | inl c ↦ stops (ground arith) refl (ground arith)
        | inr c ↦
            elim (Bool-cases (text_eq f.frame_type frame_eof || text_eq f.frame_type frame_error)) [
              | inl x ↦ stops (ground arith) refl (ground arith)
              | inr x ↦ goes_on (ground arith) refl (ground (arith, append-nil r.sent))
            ]
      ]
    ]

    live-Effect : (e : WsEvent) → Effect id r e (live_ws_step format_close_message id e r)
    unfolding live_ws_step reading_over frames_of frame_of
    live-Effect context_done = stops refl refl refl
    live-Effect session_done = stops refl refl refl
    live-Effect (read_message (text_message, payload)) = goes_on running refl refl
    live-Effect (read_message (binary_message, payload)) = goes_on running refl refl
    live-Effect (read_message (other_message, payload)) =
        goes_on running refl (sym (append-nil r.sent))
    live-Effect (read_over none) = stops refl refl refl
    live-Effect (read_over (some (code, reason))) = elim (Bool-cases (is_bad_code code)) [
      | inl bad ↦ stops (ground arith) refl (ground arith)
      | inr good ↦
          let assoc = append_assoc r.sent (close_code_of id code reason ∷ []) (close_of id ∷ []) in
          stops (ground arith) refl (ground (arith, assoc))
    ]
    live-Effect (received f w) = frame-Effect f w
    live-Effect (idle_fired true) = stops refl refl refl
    live-Effect (idle_fired false) = goes_on running refl (sym (append-nil r.sent))

    running_step :
        (e : WsEvent)
        → ws_step format_close_message id r e ≡ live_ws_step format_close_message id e r
    unfolding ws_step
    running_step e = ground arith

  -- A relay that has returned does nothing more.
  pub over_lem :
      (id : Text) (r : WsRelay) (es : List WsEvent)
      → r.running ≡ false
      → (relay_websocket format_close_message id r es ≡ r)
        × (heard id r es ≡ [])
        × (ended_by id r es ≡ none)
  unfolding relay_websocket heard ended_by ws_step
  over_lem id r [] h = (refl, refl, refl)
  over_lem id r (e ∷ es) h =
      let same : ws_step format_close_message id r e ≡ r = ground arith in
      let ih = over_lem id r es h in rw same (ground (arith, ih))

  -- What a relay sends its session: the messages, and the end.
  abbrev pub Sends :
      Text → WsRelay → List WsEvent → List Message → Option (ℤ × Text) → List Frame → Type 0
  Sends id r es ms reason before =
      (relay_websocket format_close_message id r es).sent
      ≡ before
        ++ (frames_of id ms
            ++ tail_of id (relay_websocket format_close_message id r es).running reason)

  after_step :
      (id : Text) (r t : WsRelay) (e : WsEvent) (es : List WsEvent)
      → Effect id r e t
      → (t.running ≡ true → Sends id t es (heard id t es) (ended_by id t es) t.sent)
      → Sends id t es
          (heard_at e ++ heard id t es)
          (or_else (closing_at e) (ended_by id t es))
          r.sent
  unfolding frames_of
  after_step id r t e es (goes_on on open_ s) ih =
      let tail =
        tail_of id (relay_websocket format_close_message id t es).running (ended_by id t es) in
      rw (open_, frames_of-append id (heard_at e) (heard id t es))
        (ih on
          ∙ ap (λ l. l ++ (frames_of id (heard id t es) ++ tail)) s
          ∙ append_assoc r.sent (frames_of id (heard_at e)) (frames_of id (heard id t es) ++ tail)
          ∙ ap (λ l. r.sent ++ l)
              (sym (append_assoc (frames_of id (heard_at e)) (frames_of id (heard id t es)) tail)))
  after_step id r t e es (stops off quiet s) ih =
      let (same, no_more, no_reason) = over_lem id t es off in
      rw (same, no_more, no_reason, quiet)
        (rw off (s ∙ ap (λ c. r.sent ++ end_frames id c) (no_rest (closing_at e))))
    where
      no_rest : (c : Option (ℤ × Text)) → c ≡ or_else c none
      no_rest none = refl
      no_rest (some c) = refl

  pub relay_sent :
      (id : Text) (r : WsRelay) (es : List WsEvent)
      → r.running ≡ true
      → Sends id r es (heard id r es) (ended_by id r es) r.sent
  unfolding relay_websocket heard ended_by frames_of
  relay_sent id r [] h = sym (append-nil r.sent) ∙ ap (λ b. r.sent ++ tail_of id b none) (sym h)
  relay_sent id r (e ∷ es) h =
      let t = ws_step format_close_message id r e in
      let same = running_step id r h e in
      let effect = subst (λ x. Effect id r e x) (sym same) (live-Effect id r h e) in
      let ih = after_step id r t e es effect (λ on. relay_sent id t es on) in ground (arith, ih)

  no_reason_behind :
      (id : Text) (r t : WsRelay) (e : WsEvent) (es : List WsEvent)
      → Effect id r e t
      → (relay_websocket format_close_message id t es).running ≡ true
      → (t.running ≡ true → ended_by id t es ≡ none)
      → or_else (closing_at e) (ended_by id t es) ≡ none
  no_reason_behind id r t e es (goes_on on open_ s) still ih = rw open_ (ih on)
  no_reason_behind id r t e es (stops off quiet s) still ih =
      let (same, no_more, no_reason) = over_lem id t es off in absurd (ground (arith, same))

  -- While a relay runs, its socket has not been closed.
  pub no_reason :
      (id : Text) (r : WsRelay) (es : List WsEvent)
      → r.running ≡ true
      → (relay_websocket format_close_message id r es).running ≡ true
      → ended_by id r es ≡ none
  unfolding relay_websocket ended_by
  no_reason id r [] on still = refl
  no_reason id r (e ∷ es) on still =
      let t = ws_step format_close_message id r e in
      let effect =
        subst (λ x. Effect id r e x) (sym (running_step id r on e)) (live-Effect id r on e) in
      let ih = no_reason_behind id r t e es effect still (λ h. no_reason id t es h still) in
      ground (arith, ih)
