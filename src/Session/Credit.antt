-- ===== src/Session/Credit.antt =====
-- The send window of one session: internal/datatunnel/session.go keeps credit and counters bounded.
use airpc.Prelude.{
  ℕ, zero, suc, ◌+◌, ◌≤◌, ◌<◌, ◌≡◌, Bool, [], ◌∷◌, some, Text, ℤ, pos, negsuc, length,
  length-append, arith,
}
use Prim.Native.Nat.{min}
use airpc.Tunnel.{Frame}
use airpc.Session.{
  Session, send_window, ack_threshold, recv_capacity, fill_credit, new_session, take_credit, ack,
  add_credit, add_send_credit, arrive, receive, buffered,
}

-- The bounds that the channel capacities and the threshold keep.
pub record IsBounded (s : Session) : Type 0 where
  pub window : s.credit ≤ send_window
  pub queue : length s.recv ≤ recv_capacity
  pub unacked : s.consumed < ack_threshold

fill_credit_lem : (n c : ℕ) → fill_credit n c ≡ c + n
unfolding fill_credit
fill_credit_lem zero c = omega arith
fill_credit_lem (suc n) c = omega (arith, fill_credit_lem n (c + 1))

-- A loop over the tokens that stops at a full channel is a saturating addition.
pub add_credit_lem : (n c : ℕ) → c ≤ send_window → add_credit n c ≡ min (c + n) send_window
unfolding add_credit
add_credit_lem zero c h = omega arith
add_credit_lem (suc n) c h = ground (arith, add_credit_lem n (c + 1))

pub new_session-IsBounded : (id : Text) → IsBounded (new_session id)
unfolding new_session
new_session-IsBounded id = omega (arith, fill_credit_lem send_window 0)

pub new_session-credit : (id : Text) → (new_session id).credit ≡ send_window
unfolding new_session
new_session-credit id = omega (arith, fill_credit_lem send_window 0)

pub take_credit-IsBounded :
    (pick taken : Bool) (s t : Session)
    → IsBounded s
    → take_credit pick s ≡ some (taken, t)
    → IsBounded t
unfolding take_credit
take_credit-IsBounded pick taken s t v h = ground arith

pub ack-IsBounded : (s : Session) → IsBounded s → IsBounded (ack s).0
unfolding ack
ack-IsBounded s v = ground arith

pub add_send_credit-IsBounded :
    (n : ℤ) (s : Session) → IsBounded s → IsBounded (add_send_credit n s)
unfolding add_send_credit
add_send_credit-IsBounded (pos n) s v = ground (arith, add_credit_lem n s.credit v.window)
add_send_credit-IsBounded (negsuc n) s v = ground (arith, add_credit_lem 0 s.credit v.window)

pub arrive-IsBounded :
    (pick : Bool) (f : Frame) (s t : Session)
    → IsBounded s
    → arrive pick f s ≡ buffered t
    → IsBounded t
unfolding arrive
arrive-IsBounded pick f s t v h = ground (arith, length-append s.recv (f ∷ []))

pub receive-IsBounded :
    (s t : Session) (f : Frame) → IsBounded s → receive s ≡ some (f, t) → IsBounded t
unfolding receive
receive-IsBounded s t f v h = ground arith
