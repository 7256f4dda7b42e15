-- ===== src/Session.antt =====
-- internal/datatunnel/session.go, the part of a session that stands apart from its link: the
-- receive queue, the `done` channel, the send credit, the counter of consumed frames, the claim.
-- The buffered channels are a list of frames (oldest first) and a number of tokens; a closed
-- `done` channel is a flag. Where a `select` has both cases ready the runtime chooses: `pick`.
pub mod Credit
pub mod Flow
use airpc.Prelude.{
  ℕ, zero, suc, ◌+◌, ◌-◌, ◌/◌, Bool, true, false, ◌&&◌, ◌||◌, not, List, [], ◌∷◌, ◌++◌, Option,
  none, some, Text, ℤ, pos, negsuc, length, ltb, leb, if◌then◌else◌,
}
use airpc.Tunnel.{
  Frame, version, frame_data, frame_eof, frame_window, frame_close, frame_error, new_frame,
}

abbrev pub send_window : ℕ
send_window = 32

abbrev pub recv_slack : ℕ
recv_slack = 8

abbrev pub ack_threshold : ℕ
ack_threshold = send_window / 2

-- `cap(s.recv)`
abbrev pub recv_capacity : ℕ
recv_capacity = send_window + recv_slack

pub record Session : Type 0 where
  pub id : Text
  pub recv : List Frame
  pub done : Bool
  pub credit : ℕ
  pub consumed : ℕ
  pub claimed : Bool

-- The loop of `newSession` that fills the credit channel.
fill_credit : ℕ → ℕ → ℕ
fill_credit zero credit = credit
fill_credit (suc n) credit = fill_credit n (credit + 1)

unfoldable pub new_session : Text → Session
unfolding fill_credit
new_session id = record {
  id = id;
  recv = [];
  done = false;
  credit = fill_credit send_window 0;
  consumed = 0;
  claimed = false;
}

-- `TryClaim`: the old value of the flag decides.
unfoldable pub try_claim : Session → Bool × Session
try_claim s = (not s.claimed, record s { claimed = true })

-- The `select` at the head of `SendData`: a token is taken, or the session is closed, or the call
-- blocks (`none`). The flag says whether a token was taken.
unfoldable pub take_credit : Bool → Session → Option (Bool × Session)
take_credit pick s =
    if ltb 0 s.credit && (not s.done || pick)
    then some (true, record s { credit = s.credit - 1 })
    else if s.done
    then some (false, s)
    else none

-- `AckData`: the frame counter, and the number of frames to credit once the threshold is reached.
unfoldable pub ack : Session → Session × Option ℕ
ack s =
    if leb ack_threshold (s.consumed + 1)
    then (record s { consumed = 0 }, some (s.consumed + 1))
    else (record s { consumed = s.consumed + 1 }, none)

-- The loop of `addSendCredit`: excess credit is dropped.
unfoldable pub add_credit : ℕ → ℕ → ℕ
add_credit zero credit = credit
add_credit (suc n) credit =
    let rest = add_credit n (credit + 1) in if ltb credit send_window then rest else credit

-- `for i := 0; i < n; i++` makes no round at a negative n.
abbrev rounds : ℤ → ℕ
rounds (pos n) = n
rounds (negsuc n) = 0

unfoldable pub add_send_credit : ℤ → Session → Session
add_send_credit n s = record s { credit = add_credit (rounds n) s.credit }

-- The `select` of `Link.dispatch` on a frame that is no window update.
pub data Arrival : Type 0 where
  buffered : Session → Arrival
  ignored overrun : Arrival

unfoldable pub arrive : Bool → Frame → Session → Arrival
arrive pick f s =
    if ltb (length s.recv) recv_capacity && (not s.done || pick)
    then buffered (record s { recv = s.recv ++ f ∷ [] })
    else if s.done
    then ignored
    else overrun

-- `<-session.Recv()`
unfoldable pub receive : Session → Option (Frame × Session)
receive s = elim s.recv [ [] ↦ none | f ∷ rest ↦ some (f, record s { recv = rest }) ]

-- `markDone`; `sync.Once` makes a second call harmless.
abbrev pub mark_done : Session → Session
mark_done s = record s { done = true }

-- The frames that the methods of a session write.
abbrev pub data_of : Text → Text → Text → Frame
data_of id data_kind payload = record (new_frame frame_data id) {
  data_kind = data_kind;
  payload = payload;
}

abbrev pub eof_of : Text → Frame
eof_of id = new_frame frame_eof id

abbrev pub window_of : Text → ℕ → Frame
window_of id n = record (new_frame frame_window id) { window = pos n }

abbrev pub close_of : Text → Frame
close_of id = new_frame frame_close id

abbrev pub error_of : Text → Text → Frame
error_of id message = record (new_frame frame_error id) { error = message }

abbrev pub close_code_of : Text → ℤ → Text → Frame
close_code_of id code reason = record (new_frame frame_close id) {
  close_code = code;
  payload = reason;
}
