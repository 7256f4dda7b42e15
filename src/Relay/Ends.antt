-- ===== src/Relay/Ends.antt =====
-- The two ends of a WebSocket relayed by internal/datatunnel/relay.go: what one socket says, the other
-- is told.
use airpc.Prelude.{
  suc, ◌≡◌, inl, inr, refl, sym, ◌∙◌, ap, subst, Bool, true, false, Option, none, some, List, [],
  ◌∷◌, ◌++◌, append_assoc, append-nil, Text, text_eq, ℤ, arith, Bool-cases,
}
use airpc.Tunnel.{Frame, data_binary, data_text}
use airpc.Session.{data_of, close_of, close_code_of}
use airpc.Relay.WebSockets.{
  text_message, binary_message, other_message, Message, WsEvent, context_done, session_done,
  read_message, read_over, received, idle_fired, WsRelay, new_ws_relay, ws_step, is_bad_code,
  relay_websocket,
}
use airpc.Relay.Messages.{
  as_data, heard_at, heard, with_code, ended_by, frame_of, frames_of, tail_of, relay_sent,
  no_reason, over_lem,
}

-- Frames that come from the session, each of which can be written.
abbrev pub arriving : List Frame → List WsEvent
arriving [] = []
arriving (f ∷ fs) = received f true ∷ arriving fs

abbrev datas : List Message → List Message
datas [] = []
datas (m ∷ ms) = as_data m ++ datas ms

datas-append : (ms ns : List Message) → datas (ms ++ ns) ≡ datas ms ++ datas ns
datas-append [] ns = refl
datas-append (m ∷ ms) ns =
    ap (λ l. as_data m ++ l) (datas-append ms ns)
    ∙ sym (append_assoc (as_data m) (datas ms) (datas ns))

datas-as_data : (m : Message) → datas (as_data m) ≡ as_data m
datas-as_data (text_message, payload) = refl
datas-as_data (binary_message, payload) = refl
datas-as_data (other_message, payload) = refl

datas-heard_at : (e : WsEvent) → datas (heard_at e) ≡ heard_at e
datas-heard_at (read_message m) = datas-as_data m
datas-heard_at context_done = refl
datas-heard_at session_done = refl
datas-heard_at (read_over reason) = refl
datas-heard_at (received f writable) = refl
datas-heard_at (idle_fired expired) = refl

-- What the socket at the other end has been told.
pub record IsTold (ms : List Message) (close_message : Option Text) (on : Bool) (r : WsRelay)
    : Type 0 where
  pub messages : r.written ≡ ms
  pub close : r.closing ≡ close_message
  pub ended : r.running ≡ on

module _ (format_close_message : ℤ → Text → Text) where
  -- All that is heard is data.
  datas-heard :
      (id : Text) (r : WsRelay) (es : List WsEvent)
      → datas (heard format_close_message id r es) ≡ heard format_close_message id r es
  unfolding heard
  datas-heard id r [] = refl
  datas-heard id r (e ∷ es) =
      let ih = datas-heard id (ws_step format_close_message id r e) es in
      elim (Bool-cases r.running) [
        | inl on ↦
            let same : heard format_close_message id r (e ∷ es)
                ≡ heard_at e
                  ++ heard format_close_message id (ws_step format_close_message id r e) es =
              ground arith in
            rw same (
              datas-append (heard_at e)
                (heard format_close_message id (ws_step format_close_message id r e) es)
              ∙ ap
                  (λ l.
                    l
                    ++ datas
                        (heard format_close_message id (ws_step format_close_message id r e) es))
                  (datas-heard_at e)
              ∙ ap (λ l. heard_at e ++ l) ih)
        | inr off ↦
            let same : heard format_close_message id r (e ∷ es)
                ≡ heard format_close_message id (ws_step format_close_message id r e) es =
              ground arith in
            rw same ih
      ]

  -- The relay at the other end behind some messages.
  record Reached (id : Text) (r : WsRelay) (ms : List Message) (fs rest : List Frame) : Type 0 where
    relay : WsRelay
    goes_on :
        relay_websocket format_close_message id r (arriving fs)
        ≡ relay_websocket format_close_message id relay (arriving rest)
    on : relay.running ≡ true
    still_open : relay.closing ≡ none
    told : relay.written ≡ r.written ++ datas ms

  -- The relay behind a message that is told.
  abbrev told_to : Message → WsRelay → WsRelay
  told_to m r = record r { written = r.written ++ m ∷ []; acked = suc r.acked }

  text_step :
      (id id' payload : Text) (r : WsRelay)
      → r.running ≡ true
      → ws_step format_close_message id r (received (data_of id' data_text payload) true)
        ≡ told_to (text_message, payload) r
  unfolding ws_step text_eq
  text_step id id' payload r on = ground arith

  binary_step :
      (id id' payload : Text) (r : WsRelay)
      → r.running ≡ true
      → ws_step format_close_message id r (received (data_of id' data_binary payload) true)
        ≡ told_to (binary_message, payload) r
  unfolding ws_step text_eq
  binary_step id id' payload r on = ground arith

  -- One step, and what follows.
  tell :
      (id : Text) (r : WsRelay) (m : Message) (f : Frame) (ms : List Message) (fs rest : List Frame)
      → ws_step format_close_message id r (received f true) ≡ told_to m r
      → as_data m ≡ m ∷ []
      → Reached id (told_to m r) ms fs rest
      → Reached id r (m ∷ ms) (f ∷ fs) rest
  unfolding relay_websocket
  tell id r m f ms fs rest same data_message next = record {
    relay = next.relay;
    goes_on = ap (λ x. relay_websocket format_close_message id x (arriving fs)) same ∙ next.goes_on;
    on = next.on;
    still_open = next.still_open;
    told =
        next.told
        ∙ append_assoc r.written (m ∷ []) (datas ms)
        ∙ ap (λ l. r.written ++ (l ++ datas ms)) (sym data_message);
  }

  reach :
      (id id' : Text) (r : WsRelay) (ms : List Message) (rest : List Frame)
      → r.running ≡ true
      → r.closing ≡ none
      → Reached id r ms (frames_of id' ms ++ rest) rest
  unfolding frames_of frame_of
  reach id id' r [] rest on c = record {
    relay = r;
    goes_on = refl;
    on = on;
    still_open = c;
    told = sym (append-nil r.written);
  }
  reach id id' r ((text_message, payload) ∷ ms) rest on c =
      tell id r (text_message, payload) _ ms _ rest (text_step id id' payload r on) refl
        (reach id id' (told_to (text_message, payload) r) ms rest on c)
  reach id id' r ((binary_message, payload) ∷ ms) rest on c =
      tell id r (binary_message, payload) _ ms _ rest (binary_step id id' payload r on) refl
        (reach id id' (told_to (binary_message, payload) r) ms rest on c)
  reach id id' r ((other_message, payload) ∷ ms) rest on c =
      let next = reach id id' r ms rest on c in
      record {
        relay = next.relay;
        goes_on = next.goes_on;
        on = next.on;
        still_open = next.still_open;
        told = next.told;
      }

  close_step :
      (id id' : Text) (r : WsRelay)
      → r.running ≡ true
      → ws_step format_close_message id r (received (close_of id') true)
        ≡ record r { running = false; sent = r.sent ++ close_of id ∷ [] }
  unfolding ws_step text_eq
  close_step id id' r on = ground arith

  code_step :
      (id id' reason : Text) (code : ℤ) (r : WsRelay)
      → r.running ≡ true
      → r.closing ≡ none
      → is_bad_code code ≡ false
      → ws_step format_close_message id r (received (close_code_of id' code reason) true)
        ≡ record r {
          running = false;
          sent = r.sent ++ close_of id ∷ [];
          closing = with_code format_close_message (some (code, reason));
        }
  unfolding ws_step text_eq
  code_step id id' reason code r on c good = ground arith

  finish :
      (id id' : Text) (r : WsRelay) (b : Bool) (reason : Option (ℤ × Text))
      → r.running ≡ true
      → r.closing ≡ none
      → (b ≡ true → reason ≡ none)
      → IsTold r.written
          (with_code format_close_message reason)
          b
          (relay_websocket format_close_message id r (arriving (tail_of id' b reason)))
  unfolding relay_websocket
  finish id id' r true reason on c quiet = record {
    messages = refl;
    close = c ∙ ap (with_code format_close_message) (sym (quiet refl));
    ended = on;
  }
  finish id id' r false none on c quiet =
      rw (close_step id id' r on) (record { messages = refl; close = c; ended = refl })
  finish id id' r false (some (code, reason)) on c quiet = elim (Bool-cases (is_bad_code code)) [
    | inl bad ↦
        let plain : tail_of id' false (some (code, reason)) ≡ close_of id' ∷ [] = ground arith in
        let untold : with_code format_close_message (some (code, reason)) ≡ none = ground arith in
        rw plain (
          rw (close_step id id' r on)
            (record { messages = refl; close = c ∙ sym untold; ended = refl }))
    | inr good ↦
        let t : WsRelay = record r {
          running = false;
          sent = r.sent ++ close_of id ∷ [];
          closing = with_code format_close_message (some (code, reason));
        } in
        let rest = over_lem format_close_message id t (arriving (close_of id' ∷ [])) refl in
        let both : tail_of id' false (some (code, reason))
            ≡ close_code_of id' code reason ∷ close_of id' ∷ [] =
          ground arith in
        rw both (
          rw (code_step id id' reason code r on c good) (
            subst
              (λ x. IsTold r.written (with_code format_close_message (some (code, reason))) false x)
              (sym rest.0) (record { messages = refl; close = refl; ended = refl })))
  ]

  -- What is told where only frames come.
  pub arriving-IsTold :
      (id id' : Text) (es : List WsEvent)
      → IsTold
          (heard format_close_message id new_ws_relay es)
          (with_code format_close_message (ended_by format_close_message id new_ws_relay es))
          (relay_websocket format_close_message id new_ws_relay es).running
          (relay_websocket format_close_message id' new_ws_relay
            (arriving (relay_websocket format_close_message id new_ws_relay es).sent))
  arriving-IsTold id id' es =
      let a = relay_websocket format_close_message id new_ws_relay es in
      let ms = heard format_close_message id new_ws_relay es in
      let reason = ended_by format_close_message id new_ws_relay es in
      let mid = reach id' id new_ws_relay ms (tail_of id a.running reason) refl refl in
      let last =
        finish id' id mid.relay a.running reason mid.on mid.still_open
          (no_reason format_close_message id new_ws_relay es refl) in
      rw (relay_sent format_close_message id new_ws_relay es refl, mid.goes_on)
        (record {
          messages = last.messages ∙ mid.told ∙ datas-heard id new_ws_relay es;
          close = last.close;
          ended = last.ended;
        })
