-- ===== src/Session/Flow/Consuming.antt =====
-- The consumer's side of internal/datatunnel keeps the invariant: taking frames, acknowledging
-- them, and the sender's window growing again.
use airpc.Prelude.{
  ℕ, ◌+◌, ◌≡◌, refl, sym, ◌∙◌, ap, true, false, some, none, List, [], ◌∷◌, ◌++◌, Text, arith,
  append_assoc, leb, Bool-cases, inl, inr,
}
use airpc.Tunnel.{Frame}
use airpc.Session.{Session, ack_threshold, ack, add_send_credit, receive, window_of, rounds}
use airpc.Session.Credit.{add_credit_lem}
use airpc.Session.Flow.{Flow, is_data, consumes, acknowledges, credits_back}
use airpc.Session.Flow.Counting.{data_count, control_count, credited, payloads, credited-append}
use airpc.Session.Flow.Window.{Inv, Keeps}

credited-last :
    (fs : List Frame) (id : Text) (n : ℕ) → credited (fs ++ window_of id n ∷ []) ≡ credited fs + n
unfolding credited
credited-last fs id n = omega (arith, credited-append fs (window_of id n ∷ []))

pub ack_due :
    (s : Session)
    → leb ack_threshold (s.consumed + 1) ≡ true
    → ack s ≡ (record s { consumed = 0 }, some (s.consumed + 1))
unfolding ack
ack_due s h = rw h

pub ack_early :
    (s : Session)
    → leb ack_threshold (s.consumed + 1) ≡ false
    → ack s ≡ (record s { consumed = s.consumed + 1 }, none)
unfolding ack
ack_early s h = rw h

module _ (s : Flow) (v : Inv s) (f : Frame) (rest : List Frame)
    (q : s.receiver.recv ≡ f ∷ rest) where
  -- A control frame is taken off the queue.
  skipped_Inv : is_data f ≡ false → Inv (record s { receiver = record s.receiver { recv = rest } })
  unfolding data_count control_count payloads
  skipped_Inv d = record {
    units = ground (arith, v.units);
    controlled = ground (arith, v.controlled);
    budget = v.budget;
    unacked = v.unacked;
    sender_open = v.sender_open;
    receiver_open = v.receiver_open;
    order = ap (λ p. s.received ++ p ++ payloads s.up) (sym (rw (q, payloads, d))) ∙ v.order;
  }

  -- The order of the payloads when a data frame has been processed.
  module _ (d : is_data f ≡ true) where
    taken_order : (s.received ++ f.payload ∷ []) ++ payloads rest ++ payloads s.up ≡ s.sent
    unfolding payloads
    taken_order = (simp append_assoc) ∙ sym append_all ∙ v.order
      where
        append_all :
            s.received ++ payloads s.receiver.recv ++ payloads s.up
            ≡ s.received ++ (f.payload ∷ (payloads rest ++ payloads s.up))
        append_all =
            rw (q, payloads, d)
              (append_assoc s.received (f.payload ∷ payloads rest) (payloads s.up))

    acknowledged-Keeps : Keeps (
        acknowledges (record s {
          receiver = record s.receiver { recv = rest };
          received = s.received ++ f.payload ∷ [];
        }))
    unfolding acknowledges data_count control_count
    acknowledged-Keeps = elim (Bool-cases (leb ack_threshold (s.receiver.consumed + 1))) [
      | inl due ↦
          rw (ack_due (record s.receiver { recv = rest }) due, acknowledges)
            (record {
              units =
                  ground
                    (arith, v.units, credited-last s.down s.receiver.id (s.receiver.consumed + 1));
              controlled = ground (arith, v.controlled);
              budget = v.budget;
              unacked = omega arith;
              sender_open = v.sender_open;
              receiver_open = v.receiver_open;
              order = taken_order;
            })
      | inr early ↦
          rw (ack_early (record s.receiver { recv = rest }) early, acknowledges)
            (record {
              units = ground (arith, v.units);
              controlled = ground (arith, v.controlled);
              budget = v.budget;
              unacked = ground arith;
              sender_open = v.sender_open;
              receiver_open = v.receiver_open;
              order = taken_order;
            })
    ]

module _ (s : Flow) (v : Inv s) where
  pub consumes-Keeps : Keeps (consumes s)
  unfolding consumes receive
  consumes-Keeps = go s.receiver.recv refl
    where
      go : (recv : List Frame) → s.receiver.recv ≡ recv → Keeps (consumes s)
      go [] q = rw (q, consumes) tt
      go (f ∷ rest) q = elim (Bool-cases (is_data f)) [
        | inl d ↦ rw (q, d, consumes) (acknowledged-Keeps s v f rest q d)
        | inr d ↦ rw (q, d, consumes) (skipped_Inv s v f rest q d)
      ]

  credited_Inv :
      (f : Frame) (rest : List Frame)
      → s.down ≡ f ∷ rest
      → Inv (record s { sender = add_send_credit f.window s.sender; down = rest })
  unfolding credited add_send_credit
  credited_Inv f rest q = record {
    units = ground (arith, v.units, add_credit_lem (rounds f.window) s.sender.credit);
    controlled = v.controlled;
    budget = v.budget;
    unacked = v.unacked;
    sender_open = v.sender_open;
    receiver_open = v.receiver_open;
    order = v.order;
  }

  pub credits_back-Keeps : Keeps (credits_back s)
  unfolding credits_back
  credits_back-Keeps = go s.down refl
    where
      go : (down : List Frame) → s.down ≡ down → Keeps (credits_back s)
      go [] q = rw (q, credits_back) tt
      go (f ∷ rest) q = rw (q, credits_back) (credited_Inv f rest q)
