-- ===== src/Link/History.antt =====
-- Any history of calls on one link of internal/datatunnel, from a new one.
use airpc.Prelude.{
  ℕ, ◌≡◌, refl, Bool, true, false, List, [], ◌∷◌, Option, some, none, ◌↔◌, Text, get_elem?, lookup,
  ℤ, Result, ok, err, inl, inr, Option-cases,
}
use airpc.Codec.{Codec}
use airpc.Tunnel.{Frame}
use airpc.Session.{Session, try_claim, close_of, error_of, close_code_of}
use airpc.Session.Credit.{IsBounded}
use airpc.Link.{
  Link, LinkError, new_link, accept, close, open_session, dispatch, Sent, blocked, returned,
  send_data, send_eof, ack_data, close_session, close_with_error, close_with_code, claim,
  receive_from, find, with_session, change,
}
use airpc.Link.Registry.{IsConsistent, change-Agrees}
use airpc.Link.Closing.{close_done, close-IsConsistent}
use airpc.Link.Steps.{
  new_link-IsConsistent, add_session-IsConsistent, Allocates, try_write-IsConsistent,
  open_session-IsConsistent, closes-IsConsistent,
}
use airpc.Link.Traffic.{
  Leaves, Takes, dispatch_to-IsConsistent, send_from-Leaves, ack-IsConsistent, receive-Takes,
}

-- A call of the link or of one of its sessions; pointers are addresses.
pub data Call : Type 0 where
  opens : Frame → Call
  accepts : Text → Call
  arrives : Bool → Frame → Call
  sends : Bool → Text → Text → ℕ → Call
  ends acks reads claims closes_session : ℕ → Call
  fails : Text → ℕ → Call
  closes_with : ℤ → Text → ℕ → Call
  closes : Call

-- A call that blocks or is refused leaves the link as it was.
abbrev allocated : Link → Result LinkError (ℕ × Link) → Link
allocated l (ok (p, l')) = l'
allocated l (err e) = l

abbrev left : Link → Sent → Link
left l blocked = l
left l (returned r l') = l'

abbrev taken : Link → Option (Frame × Link) → Link
taken l none = l
taken l (some (f, l')) = l'

module _ (c : Codec Frame) where
  unfoldable pub step : Call → Link → Link
  step (opens f) l = (open_session c f l).1
  step (accepts id) l = allocated l (accept id l)
  step (arrives pick f) l = dispatch c pick f l
  step (sends pick k b p) l = left l (send_data c pick k b p l)
  step (ends p) l = send_eof c p l
  step (acks p) l = ack_data c p l
  step (reads p) l = taken l (receive_from p l)
  step (claims p) l = (claim p l).1
  step (closes_session p) l = close_session c p l
  step (fails message p) l = close_with_error c message p l
  step (closes_with code reason p) l = close_with_code c code reason p l
  step closes l = close l

  unfoldable pub history : List Call → Link → Link
  history [] l = l
  history (call ∷ calls) l = history calls (step call l)

allocated-IsConsistent :
    (l : Link) (r : Result LinkError (ℕ × Link))
    → IsConsistent l
    → Allocates r
    → IsConsistent (allocated l r)
allocated-IsConsistent l (ok (p, l')) v k = k
allocated-IsConsistent l (err e) v k = v

left-IsConsistent : (l : Link) (r : Sent) → IsConsistent l → Leaves r → IsConsistent (left l r)
left-IsConsistent l blocked v k = v
left-IsConsistent l (returned r l') v k = k

taken-IsConsistent :
    (l : Link) (r : Option (Frame × Link)) → IsConsistent l → Takes r → IsConsistent (taken l r)
taken-IsConsistent l none v k = v
taken-IsConsistent l (some (f, l')) v k = k

claimed-Agrees :
    (l : Link) → IsConsistent l → (p : ℕ) → IsConsistent (change (λ t. (try_claim t).1) p l)
unfolding try_claim
claimed-Agrees l v p =
    change-Agrees l.store l.sessions v (λ t. (try_claim t).1) p (λ r q. refl) (λ r q. refl)
      λ r q b. record { window = b.window; queue = b.queue; unacked = b.unacked }

module _ (c : Codec Frame) (l : Link) (v : IsConsistent l) where
  -- A method of the session at an address keeps the registry, if it does so with a session there.
  with_session-IsConsistent :
      (p : ℕ) (k : Session → Link)
      → ((s : Session) → get_elem? l.store p ≡ some s → IsConsistent (k s))
      → IsConsistent (with_session p l k)
  with_session-IsConsistent p k keeps = elim (Option-cases (get_elem? l.store p)) [
    | inl e ↦ rw (e, with_session) v
    | inr (s, e) ↦ rw (e, with_session) (keeps s e)
  ]

  dispatch-IsConsistent : (pick : Bool) (f : Frame) → IsConsistent (dispatch c pick f l)
  unfolding dispatch
  dispatch-IsConsistent pick f = elim (Option-cases (lookup f.session_id l.sessions)) [
    | inl e ↦ rw (e, dispatch) v
    | inr (p, e) ↦
        let (s, at, ident) = v.named f.session_id p e in
        rw (e, at, dispatch) (dispatch_to-IsConsistent c l v p s at pick f)
  ]

  pub step-IsConsistent : (call : Call) → IsConsistent (step c call l)
  unfolding step send_data send_eof ack_data receive_from claim close_session close_with_error
      close_with_code
  step-IsConsistent (opens f) = open_session-IsConsistent c l v f
  step-IsConsistent (accepts id) = allocated-IsConsistent l _ v (add_session-IsConsistent l v id)
  step-IsConsistent (arrives pick f) = dispatch-IsConsistent pick f
  step-IsConsistent (sends pick k b p) = elim (Option-cases (get_elem? l.store p)) [
    | inl e ↦ rw (e, send_data) v
    | inr (s, e) ↦
        rw (e, send_data) (left-IsConsistent l _ v (send_from-Leaves c l v p s e pick k b))
  ]
  step-IsConsistent (reads p) = elim (Option-cases (get_elem? l.store p)) [
    | inl e ↦ rw (e, receive_from) v
    | inr (s, e) ↦ rw (e, receive_from) (taken-IsConsistent l _ v (receive-Takes c l v p s e))
  ]
  step-IsConsistent (ends p) = with_session-IsConsistent p _ (λ s e. try_write-IsConsistent c _ l v)
  step-IsConsistent (acks p) = with_session-IsConsistent p _ (ack-IsConsistent c l v p)
  step-IsConsistent (claims p) = elim (Option-cases (get_elem? l.store p)) [
    | inl e ↦ rw (e, step) v
    | inr (s, e) ↦ rw (e, step) (claimed-Agrees l v p)
  ]
  step-IsConsistent (closes_session p) =
      with_session-IsConsistent p _ (λ s e. closes-IsConsistent c l v (close_of s.id) s.id)
  step-IsConsistent (fails message p) =
      with_session-IsConsistent p _ (λ s e. closes-IsConsistent c l v (error_of s.id message) s.id)
  step-IsConsistent (closes_with code reason p) =
      with_session-IsConsistent p _
        (λ s e. closes-IsConsistent c l v (close_code_of s.id code reason) s.id)
  step-IsConsistent closes = close-IsConsistent l v

pub history-IsConsistent :
    (c : Codec Frame) (calls : List Call) (l : Link)
    → IsConsistent l
    → IsConsistent (history c calls l)
unfolding history
history-IsConsistent c [] l v = v
history-IsConsistent c (call ∷ calls) l v =
    history-IsConsistent c calls (step c call l) (step-IsConsistent c l v call)

-- The promise of the registry to whoever holds a pointer to a session.
pub record Tracks (l : Link) (p : ℕ) (s : Session) : Type 0 where
  pub open_iff : (s.done ≡ false) ↔ (find s.id l ≡ some p)
  pub bounds : IsBounded s

-- After any history of calls on a new link, a session's `done` channel is open exactly while the
-- link finds that very session under its id, and every session keeps its window and its queue
-- within their capacities.
pub history-Tracks :
    (c : Codec Frame) (calls : List Call) (p : ℕ) (s : Session)
    → get_elem? (history c calls new_link).store p ≡ some s
    → Tracks (history c calls new_link) p s
history-Tracks c calls p s at =
    let v = history-IsConsistent c calls new_link new_link-IsConsistent in
    record { open_iff = v.alive p s at; bounds = v.bounded p s at }

-- Whatever happened before, after `Close` every session that was ever made is done: no relay is
-- left waiting on a closed link.
pub close-history_done :
    (c : Codec Frame) (calls : List Call) (p : ℕ) (s : Session)
    → get_elem? (close (history c calls new_link)).store p ≡ some s
    → s.done ≡ true
close-history_done c calls p s at =
    close_done _ p s (history-IsConsistent c calls new_link new_link-IsConsistent) at
