-- ===== src/Session/Flow.antt =====
-- One direction of one session of internal/datatunnel, from `SendData` on one side to the relay
-- loop's `Recv` and `AckData` on the other, over the two ordered directions of the data WebSocket.
-- A schedule is a list of events, so every interleaving of the goroutines is one. The sender may
-- put up to `recv_slack` control frames among its data.
pub mod Counting
pub mod Window
pub mod Consuming
pub mod Safety
pub mod Drain
mod Tests
use airpc.Prelude.{
  ℕ, suc, ◌+◌, Bool, true, false, ◌&&◌, ◌||◌, not, List, [], ◌∷◌, ◌++◌, Option, none, some, Text,
  text_eq, ltb, if◌then◌else◌,
}
use airpc.Tunnel.{Frame, frame_data, frame_window}
use airpc.Session.{
  Session, recv_slack, new_session, take_credit, ack, add_send_credit, arrive, receive, Arrival,
  buffered, ignored, overrun, data_of, window_of,
}

-- `up` and `down` are the frames under way to the receiver and back, oldest first. `sent` and
-- `received` are the payloads that `SendData` was called with and that the consumer has processed.
pub record Flow : Type 0 where
  pub sender : Session
  pub receiver : Session
  pub up : List Frame
  pub down : List Frame
  pub sent : List Text
  pub received : List Text
  pub controls : ℕ

unfoldable pub is_data : Frame → Bool
is_data f = text_eq f.frame_type frame_data

unfoldable pub is_window : Frame → Bool
is_window f = text_eq f.frame_type frame_window

-- A new session on both sides.
unfoldable pub open_flow : Text → Flow
open_flow id = record {
  sender = new_session id;
  receiver = new_session id;
  up = [];
  down = [];
  sent = [];
  received = [];
  controls = 0;
}

pub data Event : Type 0 where
  send_data : Bool → Text → Text → Event
  send_control : Frame → Event
  deliver : Bool → Event
  consume credit_back : Event

-- An event may be impossible (a blocked sender, an empty queue), or kill the session.
pub data Next : Type 0 where
  moved : Flow → Next
  stuck killed : Next

-- `SendData`
unfoldable pub sends : Bool → Text → Text → Flow → Next
sends pick data_kind payload s = elim (take_credit pick s.sender) [
  | none ↦ stuck
  | some (taken, a) ↦
      if taken
      then moved (record s {
        sender = a;
        up = s.up ++ data_of s.sender.id data_kind payload ∷ [];
        sent = s.sent ++ payload ∷ [];
      })
      else stuck
]

-- EOF, close and error frames take no credit.
unfoldable pub sends_control : Frame → Flow → Next
sends_control f s =
    if ltb s.controls recv_slack && (not (is_data f) && not (is_window f))
    then moved (record s { up = s.up ++ f ∷ []; controls = s.controls + 1 })
    else stuck

-- The read loop takes a frame from the tunnel and dispatches it to the receiver.
unfoldable pub delivers : Bool → Flow → Next
delivers pick s = elim s.up [
  | [] ↦ stuck
  | f ∷ rest ↦ elim (arrive pick f s.receiver) [
    | buffered b ↦ moved (record s { receiver = b; up = rest })
    | ignored ↦ moved (record s { up = rest })
    | overrun ↦ killed
  ]
]

-- The window frame that is due, if any, goes out.
abbrev pub window_due : Flow → Session × Option ℕ → Next
window_due s (b, none) = moved (record s { receiver = b })
window_due s (b, some n) = moved (record s { receiver = b; down = s.down ++ window_of b.id n ∷ [] })

unfoldable pub acknowledges : Flow → Next
acknowledges s = window_due s (ack s.receiver)

-- The relay loop takes a frame; a data frame is written out and acknowledged.
unfoldable pub consumes : Flow → Next
consumes s = elim (receive s.receiver) [
  | none ↦ stuck
  | some (f, b) ↦
      if is_data f
      then acknowledges (record s { receiver = b; received = s.received ++ f.payload ∷ [] })
      else moved (record s { receiver = b })
]

-- The sender's read loop takes a window frame.
unfoldable pub credits_back : Flow → Next
credits_back s = elim s.down [
  | [] ↦ stuck
  | f ∷ rest ↦ moved (record s { sender = add_send_credit f.window s.sender; down = rest })
]

unfoldable pub apply : Event → Flow → Next
apply (send_data pick data_kind payload) s = sends pick data_kind payload s
apply (send_control f) s = sends_control f s
apply (deliver pick) s = delivers pick s
apply consume s = consumes s
apply credit_back s = credits_back s

-- An impossible event is skipped; a killed session stays killed.
unfoldable pub run : List Event → Flow → Next
run [] s = moved s
run (e ∷ es) s = elim (apply e s) [ moved t ↦ run es t | stuck ↦ run es s | killed ↦ killed ]
