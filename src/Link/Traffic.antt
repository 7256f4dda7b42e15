-- ===== src/Link/Traffic.antt =====
-- Frames in and out of the sessions of internal/datatunnel keep the registry consistent.
use airpc.Prelude.{
  ℕ, ◌≡◌, refl, Bool, true, false, inl, inr, Option, some, none, Text, text_eq, get_elem?, Result,
  ok, err, arith, Bool-cases,
}
use airpc.Codec.{Codec}
use airpc.Tunnel.{Frame, frame_window}
use airpc.Session.{
  Session, take_credit, ack, add_send_credit, receive, arrive, Arrival, buffered, ignored, overrun,
  data_of, window_of,
}
use airpc.Session.Credit.{
  take_credit-IsBounded, ack-IsBounded, add_send_credit-IsBounded, arrive-IsBounded,
  receive-IsBounded,
}
use airpc.Link.{
  Link, LinkError, change, write_frame, try_write, arrived, dispatch_to, Sent, blocked, returned,
  send_from, received, after_write, after_ack,
}
use airpc.Link.Registry.{IsConsistent, change-Agrees}
use airpc.Link.Steps.{
  replaced, write_frame_same, try_write-IsConsistent, try_write_same, closes-IsConsistent,
}

-- What a `SendData` leaves, if it returns.
abbrev pub Leaves : Sent → Type 0
Leaves blocked = Unit
Leaves (returned r l) = IsConsistent l

-- What a receive leaves, if it takes a frame.
abbrev pub Takes : Option (Frame × Link) → Type 0
Takes none = Unit
Takes (some (f, l)) = IsConsistent l

take_credit_same :
    (pick taken : Bool) (s t : Session)
    → take_credit pick s ≡ some (taken, t)
    → (t.id ≡ s.id) × (t.done ≡ s.done)
unfolding take_credit
take_credit_same pick taken s t e = ground arith

arrive_same :
    (pick : Bool) (f : Frame) (s t : Session)
    → arrive pick f s ≡ buffered t
    → (t.id ≡ s.id) × (t.done ≡ s.done)
unfolding arrive
arrive_same pick f s t e = ground arith

receive_same :
    (s t : Session) (f : Frame) → receive s ≡ some (f, t) → (t.id ≡ s.id) × (t.done ≡ s.done)
unfolding receive
receive_same s t f e = ground arith

ack_same : (s : Session) → ((ack s).0.id ≡ s.id) × ((ack s).0.done ≡ s.done)
unfolding ack
ack_same s = ground arith

add_send_credit_same :
    (f : Frame) (s : Session)
    → ((add_send_credit f.window s).id ≡ s.id) × ((add_send_credit f.window s).done ≡ s.done)
unfolding add_send_credit
add_send_credit_same f s = (refl, refl)

-- In one session, registered or not, of a consistent link.
module _ (c : Codec Frame) (l : Link) (v : IsConsistent l) (p : ℕ) (s : Session)
    (at : get_elem? l.store p ≡ some s) where
  pub dispatch_to-IsConsistent :
      (pick : Bool) (f : Frame) → IsConsistent (dispatch_to c pick f p s l)
  unfolding dispatch_to
  dispatch_to-IsConsistent pick f = elim (Bool-cases (text_eq f.frame_type frame_window)) [
    | inl w ↦ rw w (
        change-Agrees l.store l.sessions v (add_send_credit f.window) p
          (λ r e. (add_send_credit_same f r).0) (λ r e. (add_send_credit_same f r).1)
          (λ r e b. add_send_credit-IsBounded f.window r b))
    | inr w ↦ rw w (go (arrive pick f s) refl)
  ]
    where
      go : (a : Arrival) → arrive pick f s ≡ a → IsConsistent (arrived c f p a l)
      go (buffered t) q =
          let same = arrive_same pick f s t q in
          replaced l v p s t at same.0 same.1 (arrive-IsBounded pick f s t (v.bounded p s at) q)
      go ignored q = v
      go overrun q = closes-IsConsistent c l v _ f.session_id

  pub send_from-Leaves : (pick : Bool) (k b : Text) → Leaves (send_from c pick k b p s l)
  unfolding send_from
  send_from-Leaves pick k b = go (take_credit pick s) refl
    where
      wrote :
          (l1 : Link) (w : Result LinkError Link)
          → write_frame c (data_of s.id k b) l1 ≡ w
          → IsConsistent l1
          → Leaves (after_write l1 w)
      wrote l1 (ok l2) q k1 =
          let same = write_frame_same c (data_of s.id k b) l1 l2 q in rw (same.0, same.1) k1
      wrote l1 (err e) q k1 = k1

      go :
          (r : Option (Bool × Session))
          → take_credit pick s ≡ r
          → Leaves (send_from c pick k b p s l)
      go none q = rw (q, send_from) tt
      go (some (true, t)) q =
          let same = take_credit_same pick true s t q in
          let k1 =
            replaced l v p s t at same.0 same.1
              (take_credit-IsBounded pick true s t (v.bounded p s at) q) in
          rw (q, send_from) (wrote (change (λ _. t) p l) _ refl k1)
      go (some (false, t)) q = rw (q, send_from) v

  pub ack-IsConsistent : IsConsistent (after_ack c p s.id l (ack s))
  ack-IsConsistent = go (ack s).1 refl
    where
      kept :
          (l1 : Link)
          → IsConsistent l1
          → get_elem? l1.store p ≡ some s
          → IsConsistent (change (λ _. (ack s).0) p l1)
      kept l1 k at1 =
          replaced l1 k p s (ack s).0 at1 (ack_same s).0 (ack_same s).1
            (ack-IsBounded s (v.bounded p s at))

      go : (due : Option ℕ) → (ack s).1 ≡ due → IsConsistent (after_ack c p s.id l ((ack s).0, due))
      go none q = kept l v at
      go (some n) q =
          let f = window_of s.id n in
          kept (try_write c f l) (try_write-IsConsistent c f l v) (rw (try_write_same c f l).0 at)

  pub receive-Takes : Takes (received p l (receive s))
  receive-Takes = go (receive s) refl
    where
      go : (r : Option (Frame × Session)) → receive s ≡ r → Takes (received p l r)
      go none q = tt
      go (some (f, t)) q =
          let same = receive_same s t f q in
          replaced l v p s t at same.0 same.1 (receive-IsBounded s t f (v.bounded p s at) q)
