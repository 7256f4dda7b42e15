-- ===== src/Link.antt =====
-- internal/datatunnel/link.go, and the methods of session.go that go through the link: one data
-- WebSocket that multiplexes sessions by id. Sessions are shared objects (the map, the relay and
-- the claimant hold pointers to the same one), so they live in a store and pointers are addresses
-- in it. The mutexes make each function below one step. What is written on the WebSocket is a list
-- of messages; a write fails once the connection is down.
pub mod Registry
pub mod Closing
pub mod Steps
pub mod Traffic
pub mod History
pub mod Isolation
mod Tests
use airpc.Prelude.{
  ℕ, zero, suc, Bool, true, false, List, [], ◌∷◌, ◌++◌, Option, none, some, Text, text, text_eq,
  length, get_elem?, lookup, erase, insert, modify, ℤ, Result, ok, err, ◌>>=◌, map_err,
  if◌then◌else◌,
}
use airpc.Codec.{Codec}
use airpc.Tunnel
use airpc.Tunnel.{Frame, frame_open, frame_window, encode_frame, decode_frame}
use airpc.Session.{
  Session, new_session, try_claim, take_credit, ack, add_send_credit, receive, Arrival, buffered,
  ignored, overrun, arrive, mark_done, data_of, eof_of, window_of, close_of, error_of,
  close_code_of,
}

pub record Link : Type 0 where
  pub store : List Session
  pub sessions : List (Text × ℕ)
  pub written : List Text
  pub connected : Bool

pub data LinkError : Type 0 where
  session_exists : Text → LinkError
  not_encoded : Tunnel.Error → LinkError
  write_failed session_closed : LinkError

-- `NewLink` on a live connection.
unfoldable pub new_link : Link
new_link = record { store = []; sessions = []; written = []; connected = true }

-- `Link.Session`: the registered session with the given id, or nil.
abbrev pub find : Text → Link → Option ℕ
find id l = lookup id l.sessions

-- The session at an address is changed.
abbrev pub change : (Session → Session) → ℕ → Link → Link
change f p l = record l { store = modify f p l.store }

-- `addSession`: the new session's address.
unfoldable pub add_session : Text → Link → Result LinkError (ℕ × Link)
add_session id l = elim (lookup id l.sessions) [
  | some p ↦ err (session_exists id)
  | none ↦ ok (
    length l.store,
    record l {
      store = l.store ++ new_session id ∷ [];
      sessions = insert id (length l.store) l.sessions;
    },
  )
]

-- `Accept`
abbrev pub accept : Text → Link → Result LinkError (ℕ × Link)
accept id l = add_session id l

-- `removeSession`: the entry goes, and the session that it named is done.
unfoldable pub remove_session : Text → Link → Link
remove_session id l = elim (lookup id l.sessions) [
  | none ↦ record l { sessions = erase id l.sessions }
  | some p ↦ record l { sessions = erase id l.sessions; store = modify mark_done p l.store }
]

-- The loop of `Close` over the map that it has taken.
unfoldable pub mark_all : List (Text × ℕ) → List Session → List Session
mark_all [] store = store
mark_all ((id, p) ∷ more) store = mark_all more (modify mark_done p store)

-- `Link.Close`
unfoldable pub close : Link → Link
close l = record l { store = mark_all l.sessions l.store; sessions = []; connected = false }

-- `SendData` blocks, or returns with the link changed.
pub data Sent : Type 0 where
  blocked : Sent
  returned : Result LinkError (Unit {0}) → Link → Sent

abbrev pub after_write : Link → Result LinkError Link → Sent
after_write l (ok l') = returned (ok tt) l'
after_write l (err e) = returned (err e) l

-- A method of the session at an address; there is always one.
abbrev pub with_session : ℕ → Link → (Session → Link) → Link
with_session p l k = elim (get_elem? l.store p) [ none ↦ l | some s ↦ k s ]

module _ (c : Codec Frame) where
  -- `WriteFrame`
  unfoldable pub write_frame : Frame → Link → Result LinkError Link
  write_frame f l = do
    b ← map_err not_encoded (encode_frame c f)
    if l.connected then ok (record l { written = l.written ++ b ∷ [] }) else err write_failed

  -- `_ = l.WriteFrame(f)`
  unfoldable pub try_write : Frame → Link → Link
  try_write f l = elim (write_frame f l) [ ok l' ↦ l' | err e ↦ l ]

  -- `Open`: a session whose open frame cannot be written is removed again.
  unfoldable pub open_session : Frame → Link → Result LinkError ℕ × Link
  open_session f l = elim (add_session f.session_id l) [
    | err e ↦ (err e, l)
    | ok (p, l1) ↦ elim (write_frame f l1) [
      | ok l2 ↦ (ok p, l2)
      | err e ↦ (err e, remove_session f.session_id l1)
    ]
  ]

  -- The outcome of the `select` in `dispatch`; an overrun kills the session.
  abbrev pub arrived : Frame → ℕ → Arrival → Link → Link
  arrived f p (buffered t) l = change (λ _. t) p l
  arrived f p ignored l = l
  arrived f p overrun l =
      remove_session f.session_id
        (try_write (error_of f.session_id (text "flow control violation")) l)

  unfoldable pub dispatch_to : Bool → Frame → ℕ → Session → Link → Link
  dispatch_to pick f p s l =
      if text_eq f.frame_type frame_window
      then change (add_send_credit f.window) p l
      else arrived f p (arrive pick f s) l

  -- `dispatch`
  unfoldable pub dispatch : Bool → Frame → Link → Link
  dispatch pick f l = elim (lookup f.session_id l.sessions) [
    | none ↦ l
    | some p ↦ elim (get_elem? l.store p) [ none ↦ l | some s ↦ dispatch_to pick f p s l ]
  ]

  -- One round of `Run`: a message that is no binary one or no valid frame is skipped; an open frame
  -- goes to `onOpen`, if there is one.
  unfoldable pub handle_message : Bool → Option (Frame → Link → Link) → Bool × Text → Link → Link
  handle_message pick on_open (false, bytes) l = l
  handle_message pick on_open (true, bytes) l = elim (decode_frame c bytes) [
    | err e ↦ l
    | ok f ↦
        if text_eq f.frame_type frame_open
        then elim on_open [ none ↦ l | some g ↦ g f l ]
        else dispatch pick f l
  ]

  -- `Run` over the messages that arrive until the connection fails.
  unfoldable pub run_link : Bool → Option (Frame → Link → Link) → List (Bool × Text) → Link → Link
  run_link pick on_open [] l = close l
  run_link pick on_open (m ∷ ms) l = run_link pick on_open ms (handle_message pick on_open m l)

  unfoldable pub send_from : Bool → Text → Text → ℕ → Session → Link → Sent
  send_from pick data_kind payload p s l = elim (take_credit pick s) [
    | none ↦ blocked
    | some (taken, t) ↦
        if taken
        then after_write (change (λ _. t) p l)
            (write_frame (data_of s.id data_kind payload) (change (λ _. t) p l))
        else returned (err session_closed) l
  ]

  unfoldable pub send_data : Bool → Text → Text → ℕ → Link → Sent
  send_data pick data_kind payload p l = elim (get_elem? l.store p) [
    | none ↦ blocked
    | some s ↦ send_from pick data_kind payload p s l
  ]

  unfoldable pub send_eof : ℕ → Link → Link
  send_eof p l = with_session p l (λ s. try_write (eof_of s.id) l)

  -- `AckData`
  abbrev pub after_ack : ℕ → Text → Link → Session × Option ℕ → Link
  after_ack p id l (t, none) = change (λ _. t) p l
  after_ack p id l (t, some n) = change (λ _. t) p (try_write (window_of id n) l)

  unfoldable pub ack_data : ℕ → Link → Link
  ack_data p l = with_session p l (λ s. after_ack p s.id l (ack s))

  -- `Session.Close`, `CloseWithError` and `CloseWithCode` remove whatever the id names now.
  unfoldable pub close_session : ℕ → Link → Link
  close_session p l = with_session p l (λ s. remove_session s.id (try_write (close_of s.id) l))

  unfoldable pub close_with_error : Text → ℕ → Link → Link
  close_with_error message p l =
      with_session p l (λ s. remove_session s.id (try_write (error_of s.id message) l))

  unfoldable pub close_with_code : ℤ → Text → ℕ → Link → Link
  close_with_code code reason p l =
      with_session p l (λ s. remove_session s.id (try_write (close_code_of s.id code reason) l))

-- `TryClaim` through a pointer.
unfoldable pub claim : ℕ → Link → Bool × Link
claim p l = elim (get_elem? l.store p) [
  | none ↦ (false, l)
  | some s ↦ ((try_claim s).0, change (λ t. (try_claim t).1) p l)
]

-- A frame taken from a session's queue.
abbrev received : ℕ → Link → Option (Frame × Session) → Option (Frame × Link)
received p l none = none
received p l (some (f, t)) = some (f, change (λ _. t) p l)

unfoldable pub receive_from : ℕ → Link → Option (Frame × Link)
receive_from p l = elim (get_elem? l.store p) [ none ↦ none | some s ↦ received p l (receive s) ]
