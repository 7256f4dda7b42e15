-- ===== src/Relay/WebSockets.antt =====
-- `RelayWebSocket` of internal/datatunnel/relay.go: a WebSocket and a session joined in both directions,
-- message by message. As for a TCP connection, the goroutine that reads the socket and the loop over the
-- session are one list of events. `websocket.FormatCloseMessage`, which turns a code and a text into the
-- payload of a close message (an empty one for the code 1005, by its documentation), is a parameter.
use airpc.Prelude.{
  ℕ, suc, Bool, true, false, ◌&&◌, ◌||◌, not, Option, none, some, List, [], ◌∷◌, ◌++◌, Text,
  text_eq, if◌then◌else◌, ℤ, pos, eqb_ℤ, ltb_ℤ,
}
use airpc.Tunnel.{Frame, frame_data, frame_eof, frame_close, frame_error, data_binary, data_text}
use airpc.Session.{data_of, close_of, close_code_of}

-- The types of messages that `ReadMessage` returns, as the program tells them apart.
pub data MessageType : Type 0 where
  text_message binary_message other_message : MessageType

abbrev pub Message : Type 0
Message = MessageType × Text

-- The context or the session ends; a message is read, and sent if it is data; the reading is over, by a
-- close of the socket with its code and text, or by another error of the socket or of the session; a frame
-- comes from the session, and its payload can be written or not; the idle timer fires, and the time is up
-- or not.
pub data WsEvent : Type 0 where
  context_done session_done : WsEvent
  read_message : Message → WsEvent
  read_over : Option (ℤ × Text) → WsEvent
  received : Frame → Bool → WsEvent
  idle_fired : Bool → WsEvent

-- `closing` is the payload of the close message that is written to the socket.
pub record WsRelay : Type 0 where
  pub running : Bool
  pub sent : List Frame
  pub written : List Message
  pub closing : Option Text
  pub acked : ℕ

abbrev pub new_ws_relay : WsRelay
new_ws_relay = record { running = true; sent = []; written = []; closing = none; acked = 0 }

-- `return`, with the deferred `session.Close()`.
abbrev pub stop : Text → WsRelay → WsRelay
stop id r = record r { running = false; sent = r.sent ++ close_of id ∷ [] }

-- The kind of data that a message is sent as, if it is sent.
unfoldable pub data_kind_of : MessageType → Option Text
data_kind_of text_message = some data_text
data_kind_of binary_message = some data_binary
data_kind_of other_message = none

-- The reading goroutine, at one message.
unfoldable pub send_message : Text → Message → WsRelay → WsRelay
unfolding data_kind_of
send_message id (kind, payload) r = elim (data_kind_of kind) [
  | some data_kind ↦ record r { sent = r.sent ++ data_of id data_kind payload ∷ [] }
  | none ↦ r
]

-- The test of `Frame.Validate` on the code of a close.
unfoldable pub is_bad_code : ℤ → Bool
is_bad_code code = not (eqb_ℤ code (pos 0)) && (ltb_ℤ code (pos 1000) || ltb_ℤ (pos 4999) code)

-- The case of `readResult`. `WriteFrame` refuses a frame with a bad code, and the error is dropped.
unfoldable pub reading_over : Text → Option (ℤ × Text) → WsRelay → WsRelay
reading_over id none r = stop id r
reading_over id (some (code, reason)) r =
    if is_bad_code code
    then stop id r
    else stop id (record r { sent = r.sent ++ close_code_of id code reason ∷ [] })

unfoldable pub message_type_of : Frame → MessageType
message_type_of f = if text_eq f.data_kind data_text then text_message else binary_message

module _ (format_close_message : ℤ → Text → Text) where
  -- The case of a frame.
  unfoldable pub take_ws_frame : Text → Frame → Bool → WsRelay → WsRelay
  unfolding message_type_of
  take_ws_frame id f writable r =
      if text_eq f.frame_type frame_data
      then if writable
        then record r {
          written = r.written ++ (message_type_of f, f.payload) ∷ [];
          acked = suc r.acked;
        }
        else stop id r
      else if text_eq f.frame_type frame_close
      then if eqb_ℤ f.close_code (pos 0)
        then stop id r
        else stop id (record r { closing = some (format_close_message f.close_code f.payload) })
      else if text_eq f.frame_type frame_eof || text_eq f.frame_type frame_error
      then stop id r
      else r

  unfoldable pub live_ws_step : Text → WsEvent → WsRelay → WsRelay
  unfolding send_message reading_over take_ws_frame
  live_ws_step id context_done r = stop id r
  live_ws_step id session_done r = stop id r
  live_ws_step id (read_message m) r = send_message id m r
  live_ws_step id (read_over reason) r = reading_over id reason r
  live_ws_step id (received f writable) r = take_ws_frame id f writable r
  live_ws_step id (idle_fired expired) r = if expired then stop id r else r

  -- Nothing happens once the relay has returned.
  unfoldable pub ws_step : Text → WsRelay → WsEvent → WsRelay
  unfolding live_ws_step
  ws_step id r e = if r.running then live_ws_step id e r else r

  unfoldable pub relay_websocket : Text → WsRelay → List WsEvent → WsRelay
  unfolding ws_step
  relay_websocket id r [] = r
  relay_websocket id r (e ∷ es) = relay_websocket id (ws_step id r e) es
