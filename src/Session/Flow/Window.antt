-- ===== src/Session/Flow/Window.antt =====
-- Flow control of internal/datatunnel: no frame is lost, reordered or counted twice, and the
-- receive queue of an obedient peer never overflows.
use airpc.Prelude.{
  ◌+◌, ◌-◌, ◌≤◌, ◌<◌, ◌≡◌, refl, sym, ◌∙◌, ap, Bool, true, false, List, [], ◌∷◌, ◌++◌, not, ◌&&◌,
  Text, length, arith, append_assoc, ltb, Bool-cases, inl, inr,
}
use airpc.Tunnel.{Frame}
use airpc.Session.{
  Session, send_window, recv_slack, recv_capacity, ack_threshold, new_session, take_credit, arrive,
  buffered, data_of,
}
use airpc.Session.Credit.{new_session-credit}
use airpc.Session.Flow.{
  Flow, is_data, is_window, open_flow, Next, moved, stuck, killed, sends, sends_control, delivers,
}
use airpc.Session.Flow.Counting.{
  data_count, control_count, credited, payloads, length-count, is_data-data_of, data_count-last,
  data_count-last_control, control_count-last, control_count-last_control, payloads-last,
  payloads-last_control,
}

-- Every unit of credit is in one place: with the sender, on a data frame under way or queued, in
-- the receiver's counter, or on a window frame under way. Payloads arrive in the order sent.
pub record Inv (s : Flow) : Type 0 where
  pub units :
      s.sender.credit
        + data_count s.up
        + data_count s.receiver.recv
        + s.receiver.consumed
        + credited s.down
      ≡ send_window
  pub controlled : control_count s.up + control_count s.receiver.recv ≤ s.controls
  pub budget : s.controls ≤ recv_slack
  pub unacked : s.receiver.consumed < ack_threshold
  pub sender_open : s.sender.done ≡ false
  pub receiver_open : s.receiver.done ≡ false
  pub order : s.received ++ payloads s.receiver.recv ++ payloads s.up ≡ s.sent

-- What a step must give: a state that keeps the invariant, or nothing; never a killed session.
abbrev pub Keeps : Next → Type 0
Keeps (moved t) = Inv t
Keeps stuck = Unit
Keeps killed = ⊥

pub open_flow-Inv : (id : Text) → Inv (open_flow id)
unfolding open_flow new_session data_count control_count credited payloads
open_flow-Inv id = record {
  units = omega (arith, new_session-credit id);
  controlled = omega arith;
  budget = omega arith;
  unacked = omega arith;
  sender_open = refl;
  receiver_open = refl;
  order = refl;
}

regroup : (r a b : List Text) (x : Text) → r ++ (a ++ x ∷ []) ++ b ≡ r ++ a ++ x ∷ b
regroup r a b x = simp append_assoc

pub arrive_room :
    (pick : Bool) (f : Frame) (s : Session)
    → s.done ≡ false
    → length s.recv < recv_capacity
    → arrive pick f s ≡ buffered (record s { recv = s.recv ++ f ∷ [] })
unfolding arrive
arrive_room pick f s open_ h = ground arith

-- The states that the steps reach, from one that keeps the invariant.
module _ (s : Flow) (v : Inv s) where
  sent_Inv :
      (f : Frame)
      → is_data f ≡ true
      → 0 < s.sender.credit
      → Inv (record s {
        sender = record s.sender { credit = s.sender.credit - 1 };
        up = s.up ++ f ∷ [];
        sent = s.sent ++ f.payload ∷ [];
      })
  sent_Inv f d h = record {
    units = omega (arith, v.units, data_count-last s.up f d);
    controlled = omega (arith, v.controlled, control_count-last s.up f d);
    budget = v.budget;
    unacked = v.unacked;
    sender_open = v.sender_open;
    receiver_open = v.receiver_open;
    order = rw (payloads-last s.up f d) (
        sym (append_assoc (s.received ++ payloads s.receiver.recv) (payloads s.up) (f.payload ∷ []))
        ∙ ap (λ q. q ++ f.payload ∷ []) v.order);
  }

  controlled_Inv :
      (f : Frame)
      → is_data f ≡ false
      → s.controls < recv_slack
      → Inv (record s { up = s.up ++ f ∷ []; controls = s.controls + 1 })
  controlled_Inv f d h = record {
    units = omega (arith, v.units, data_count-last_control s.up f d);
    controlled = omega (arith, v.controlled, control_count-last_control s.up f d);
    budget = omega arith;
    unacked = v.unacked;
    sender_open = v.sender_open;
    receiver_open = v.receiver_open;
    order = rw (payloads-last_control s.up f d) v.order;
  }

  module _ (f : Frame) (rest : List Frame) (q : s.up ≡ f ∷ rest) where
    delivered_Inv :
        Inv (record s {
          receiver = record s.receiver { recv = s.receiver.recv ++ f ∷ [] };
          up = rest;
        })
    unfolding data_count control_count payloads
    delivered_Inv = elim (Bool-cases (is_data f)) [
      | inl d ↦ record {
        units = ground (arith, v.units, data_count-last s.receiver.recv f d);
        controlled = ground (arith, v.controlled, control_count-last s.receiver.recv f d);
        budget = v.budget;
        unacked = v.unacked;
        sender_open = v.sender_open;
        receiver_open = v.receiver_open;
        order = rw (payloads-last s.receiver.recv f d) (
            regroup s.received (payloads s.receiver.recv) (payloads rest) f.payload
            ∙ ap (◌++◌ (s.received ++ payloads s.receiver.recv)) (sym (rw (q, payloads, d)))
            ∙ v.order);
      }
      | inr d ↦ record {
        units = ground (arith, v.units, data_count-last_control s.receiver.recv f d);
        controlled = ground (arith, v.controlled, control_count-last_control s.receiver.recv f d);
        budget = v.budget;
        unacked = v.unacked;
        sender_open = v.sender_open;
        receiver_open = v.receiver_open;
        order = rw (payloads-last_control s.receiver.recv f d) (
            ap (◌++◌ (s.received ++ payloads s.receiver.recv)) (sym (rw (q, payloads, d)))
            ∙ v.order);
      }
    ]

    -- An obedient peer never overruns the queue.
    pub room : length s.receiver.recv < recv_capacity
    unfolding data_count control_count
    room = ground (arith, v.units, v.controlled, v.budget, length-count s.receiver.recv)

  pub delivers-Keeps : (pick : Bool) → Keeps (delivers pick s)
  unfolding delivers
  delivers-Keeps pick = go s.up refl
    where
      go : (up : List Frame) → s.up ≡ up → Keeps (delivers pick s)
      go [] q = rw (q, delivers) tt
      go (f ∷ rest) q =
          rw (q, delivers, arrive_room pick f s.receiver v.receiver_open (room f rest q))
            (delivered_Inv f rest q)

  pub sends-Keeps : (pick : Bool) (k p : Text) → Keeps (sends pick k p s)
  unfolding sends take_credit
  sends-Keeps pick k p = elim (Bool-cases (ltb 0 s.sender.credit)) [
    | inl left ↦
        rw (v.sender_open, left, sends)
          (rw (← v.sender_open)
            (sent_Inv (data_of s.sender.id k p) (is_data-data_of s.sender.id k p) (ground arith)))
    | inr out ↦ rw (v.sender_open, out, sends) tt
  ]

  pub sends_control-Keeps : (f : Frame) → Keeps (sends_control f s)
  unfolding sends_control
  sends_control-Keeps f =
      elim (Bool-cases (ltb s.controls recv_slack && (not (is_data f) && not (is_window f)))) [
        | inl good ↦ rw good (controlled_Inv f (ground arith) (ground arith))
        | inr bad ↦ rw bad tt
      ]
