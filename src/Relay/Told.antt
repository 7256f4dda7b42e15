-- ===== src/Relay/Told.antt =====
-- Both ends of a WebSocket relayed by internal/datatunnel/relay.go, while the other end also says
-- something of its own.
use airpc.Prelude.{◌≡◌, refl, ◌∙◌, true, false, List, [], ◌∷◌, Text, ℤ, arith}
use airpc.Tunnel.{Frame}
use airpc.Relay.WebSockets.{
  Message, WsEvent, text_message, binary_message, other_message, read_message, received, idle_fired,
  WsRelay, send_message, new_ws_relay, take_ws_frame, ws_step, relay_websocket,
}
use airpc.Relay.Messages.{heard, with_code, ended_by}
use airpc.Relay.Ends.{IsTold, arriving, arriving-IsTold}

-- The events of an end to which the frames come in order and can be written, while its own socket sends
-- messages and its timer fires too early.
pub data Comes : List Frame → List WsEvent → Type 0 where
  all_come : Comes [] []
  comes :
      {fs : List Frame} {es : List WsEvent} (f : Frame)
      → Comes fs es
      → Comes (f ∷ fs) (received f true ∷ es)
  says :
      {fs : List Frame} {es : List WsEvent} (m : Message)
      → Comes fs es
      → Comes fs (read_message m ∷ es)
  wakes : {fs : List Frame} {es : List WsEvent} → Comes fs es → Comes fs (idle_fired false ∷ es)

-- Relays that differ in what they have sent and acknowledged only.
record Alike (r r' : WsRelay) : Type 0 where
  running : r.running ≡ r'.running
  written : r.written ≡ r'.written
  closing : r.closing ≡ r'.closing

module _ (format_close_message : ℤ → Text → Text) where
  frame-Alike :
      (id : Text) (f : Frame) (r r' : WsRelay)
      → Alike r r'
      → Alike
          (ws_step format_close_message id r (received f true))
          (ws_step format_close_message id r' (received f true))
  unfolding ws_step take_ws_frame
  frame-Alike id f r r' a = record {
    running = ground (arith, a.running);
    written = ground (arith, a.running, a.written);
    closing = ground (arith, a.running, a.closing);
  }

  message-Alike :
      (id : Text) (m : Message) (r r' : WsRelay)
      → Alike r r'
      → Alike (ws_step format_close_message id r (read_message m)) r'
  unfolding ws_step send_message
  message-Alike id (text_message, payload) r r' a = record {
    running = ground (arith, a.running);
    written = ground (arith, a.written);
    closing = ground (arith, a.closing);
  }
  message-Alike id (binary_message, payload) r r' a = record {
    running = ground (arith, a.running);
    written = ground (arith, a.written);
    closing = ground (arith, a.closing);
  }
  message-Alike id (other_message, payload) r r' a = record {
    running = ground (arith, a.running);
    written = ground (arith, a.written);
    closing = ground (arith, a.closing);
  }

  timer-Alike :
      (id : Text) (r r' : WsRelay)
      → Alike r r'
      → Alike (ws_step format_close_message id r (idle_fired false)) r'
  unfolding ws_step
  timer-Alike id r r' a = record {
    running = ground (arith, a.running);
    written = ground (arith, a.written);
    closing = ground (arith, a.closing);
  }

  -- What an end says of its own changes nothing of what its socket is told.
  Comes-Alike :
      (id : Text) {fs : List Frame} {es : List WsEvent} (r r' : WsRelay)
      → Comes fs es
      → Alike r r'
      → Alike
          (relay_websocket format_close_message id r es)
          (relay_websocket format_close_message id r' (arriving fs))
  unfolding relay_websocket
  Comes-Alike id r r' all_come a = a
  Comes-Alike id r r' (comes f c) a = Comes-Alike id _ _ c (frame-Alike id f r r' a)
  Comes-Alike id r r' (says m c) a = Comes-Alike id _ r' c (message-Alike id m r r' a)
  Comes-Alike id r r' (wakes c) a = Comes-Alike id _ r' c (timer-Alike id r r' a)

  -- However the events of one end fall, and once the frames that its relay sends have come to the other
  -- end, which may read messages of its own socket meanwhile but does not end of itself: the socket there
  -- has been told exactly the messages of data that the first socket has sent, of the same types and in
  -- the same order; then, if the first relay was ended by a close with a code between 1000 and 4999, the
  -- close message that is made of this code and text, and none otherwise; and the relay there is over
  -- exactly if the first is.
  pub relay_websocket-IsTold :
      (id id' : Text) (es there : List WsEvent)
      → Comes (relay_websocket format_close_message id new_ws_relay es).sent there
      → IsTold
          (heard format_close_message id new_ws_relay es)
          (with_code format_close_message (ended_by format_close_message id new_ws_relay es))
          (relay_websocket format_close_message id new_ws_relay es).running
          (relay_websocket format_close_message id' new_ws_relay there)
  relay_websocket-IsTold id id' es there c =
      let a =
        Comes-Alike id' new_ws_relay new_ws_relay c
          (record { running = refl; written = refl; closing = refl }) in
      let t = arriving-IsTold format_close_message id id' es in
      record {
        messages = a.written ∙ t.messages;
        close = a.closing ∙ t.close;
        ended = a.running ∙ t.ended;
      }
