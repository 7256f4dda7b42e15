-- ===== src/Relay.antt =====
-- `RelayConn` of internal/datatunnel/relay.go: a TCP connection and a session joined in both
-- directions. The goroutine that reads the connection and the loop over the session share nothing but
-- the session, so their steps are one list of events. A frame that is sent stands for the call of the
-- session that sends it.
use airpc.Prelude.{
  ℕ, suc, ◌≡◌, ◌⊎◌, inl, inr, refl, sym, ◌∙◌, ap, Bool, true, false, ◌&&◌, ◌||◌, not, List, [], ◌∷◌,
  ◌++◌, append_assoc, append-nil, Text, text, text_eq, map, if◌then◌else◌, arith, Bool-cases,
}
use airpc.Tunnel.{Frame, frame_data, frame_eof, frame_close, frame_error, data_binary}
use airpc.Session.{data_of, eof_of, close_of}
pub mod Order
pub mod Steps
pub mod Reading
pub mod Writing
pub mod Carrying
pub mod Carried
pub mod WebSockets
pub mod Messages
pub mod Ends
pub mod Told
pub mod Idle
mod EndTests
mod Tests

-- The context or the session ends; a chunk is read from the connection, and sent if the session still
-- takes it; the reading is over, at the end of the stream or by an error; a frame comes from the
-- session, and its payload can be written or not; the idle timer fires, and the time is up or not.
pub data Event : Type 0 where
  context_done session_done read_failed : Event
  read_chunk : Text → Event
  read_eof : Bool → Event
  received : Frame → Bool → Event
  idle_fired : Bool → Event

pub record Relay : Type 0 where
  pub running : Bool
  pub local_eof : Bool
  pub remote_eof : Bool
  pub half_closed : Bool
  pub sent : List Frame
  pub written : List Text
  pub acked : ℕ

abbrev pub new_relay : Relay
new_relay = record {
  running = true;
  local_eof = false;
  remote_eof = false;
  half_closed = false;
  sent = [];
  written = [];
  acked = 0;
}

-- `return`, with the deferred `session.Close()`.
abbrev pub stop : Text → Relay → Relay
stop id r = record r { running = false; sent = r.sent ++ close_of id ∷ [] }

-- The case of `readResult` with `io.EOF`; the flag tells whether `SendEOF` succeeds.
unfoldable pub local_end : Text → Bool → Relay → Relay
local_end id ok r =
    if not ok
    then stop id (record r { local_eof = true })
    else if r.remote_eof
    then stop id (record r { local_eof = true; sent = r.sent ++ eof_of id ∷ [] })
    else record r { local_eof = true; sent = r.sent ++ eof_of id ∷ [] }

-- The case of a frame.
unfoldable pub take_frame : Text → Frame → Bool → Relay → Relay
take_frame id f writable r =
    if text_eq f.frame_type frame_data
    then if writable
      then record r { written = r.written ++ f.payload ∷ []; acked = suc r.acked }
      else stop id r
    else if text_eq f.frame_type frame_eof
    then if r.local_eof
      then stop id (record r { remote_eof = true; half_closed = true })
      else record r { remote_eof = true; half_closed = true }
    else if text_eq f.frame_type frame_close || text_eq f.frame_type frame_error
    then stop id r
    else r

unfoldable pub live_step : Text → Event → Relay → Relay
unfolding local_end take_frame
live_step id context_done r = stop id r
live_step id session_done r = stop id r
live_step id read_failed r = stop id r
live_step id (read_chunk chunk) r =
    if r.local_eof then r else record r { sent = r.sent ++ data_of id data_binary chunk ∷ [] }
live_step id (read_eof ok) r = if r.local_eof then r else local_end id ok r
live_step id (received f writable) r = take_frame id f writable r
live_step id (idle_fired expired) r = if expired then stop id r else r

-- Nothing happens once the relay has returned, and nothing is read behind the end of the stream.
unfoldable pub step : Text → Relay → Event → Relay
unfolding live_step
step id r e = if r.running then live_step id e r else r

unfoldable pub relay_conn : Text → Relay → List Event → Relay
unfolding step
relay_conn id r [] = r
relay_conn id r (e ∷ es) = relay_conn id (step id r e) es
