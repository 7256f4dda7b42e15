-- ===== src/Session/Flow/Drain.antt =====
-- No stalled sender of internal/datatunnel waits for ever: the frames under way can always be
-- processed, and then more than half of the window is free again.
use airpc.Prelude.{
  ℕ, zero, suc, ◌+◌, ◌*◌, ◌<◌, ◌≡◌, refl, sym, ◌∙◌, false, List, [], ◌∷◌, ◌++◌, Text, length,
  length-append, arith, append-nil, Bool-cases, inl, inr, leb, ◌⊎◌, subst,
}
use airpc.Tunnel.{Frame}
use airpc.Session.{ack_threshold, receive, add_send_credit, window_of}
use airpc.Session.Flow.{
  Flow, open_flow, Event, deliver, consume, credit_back, moved, apply, run, delivers, consumes,
  acknowledges, credits_back, is_data,
}
use airpc.Session.Flow.Counting.{data_count, credited, payloads}
use airpc.Session.Flow.Window.{Inv, Keeps, open_flow-Inv, room, arrive_room}
use airpc.Session.Flow.Consuming.{ack_due, ack_early}
use airpc.Session.Flow.Safety.{run-Inv, apply-Keeps}

-- What is left to do: a frame under way is delivered, then read, then may bring a window frame.
abbrev pending : Flow → ℕ
pending s = 3 * length s.up + 2 * length s.receiver.recv + length s.down

-- A step that can be made and brings the state nearer to rest.
record Advances (e : Event) (s : Flow) : Type 0 where
  target : Flow
  step : apply e s ≡ moved target
  nearer : pending target < pending s
  kept : target.sent ≡ s.sent

deliver-Advances :
    (s : Flow) (f : Frame) (rest : List Frame)
    → Inv s
    → s.up ≡ f ∷ rest
    → Advances (deliver false) s
unfolding apply delivers
deliver-Advances s f rest v q = record {
  target = record s {
    receiver = record s.receiver { recv = s.receiver.recv ++ f ∷ [] };
    up = rest;
  };
  step = rw (q, delivers, arrive_room false f s.receiver v.receiver_open (room s v f rest q));
  nearer = rw q (omega (arith, length-append s.receiver.recv (f ∷ [])));
  kept = refl;
}

consume-Advances :
    (s : Flow) (f : Frame) (rest : List Frame) → s.receiver.recv ≡ f ∷ rest → Advances consume s
unfolding apply consumes receive acknowledges
consume-Advances s f rest q = elim (Bool-cases (is_data f)) [
  | inl d ↦ elim (Bool-cases (leb ack_threshold (s.receiver.consumed + 1))) [
    | inl due ↦ record {
      target = record s {
        receiver = record s.receiver { recv = rest; consumed = 0 };
        received = s.received ++ f.payload ∷ [];
        down = s.down ++ window_of s.receiver.id (s.receiver.consumed + 1) ∷ [];
      };
      step = rw (q, d, consumes, ack_due (record s.receiver { recv = rest }) due);
      nearer = rw q (
          omega
            (arith, length-append s.down (window_of s.receiver.id (s.receiver.consumed + 1) ∷ [])));
      kept = refl;
    }
    | inr early ↦ record {
      target = record s {
        receiver = record s.receiver { recv = rest; consumed = s.receiver.consumed + 1 };
        received = s.received ++ f.payload ∷ [];
      };
      step = rw (q, d, consumes, ack_early (record s.receiver { recv = rest }) early);
      nearer = rw q (omega arith);
      kept = refl;
    }
  ]
  | inr d ↦ record {
    target = record s { receiver = record s.receiver { recv = rest } };
    step = rw (q, d, consumes);
    nearer = rw q (omega arith);
    kept = refl;
  }
]

credit-Advances :
    (s : Flow) (f : Frame) (rest : List Frame) → s.down ≡ f ∷ rest → Advances credit_back s
unfolding apply credits_back
credit-Advances s f rest q = record {
  target = record s { sender = add_send_credit f.window s.sender; down = rest };
  step = rw (q, credits_back);
  nearer = rw q (omega arith);
  kept = refl;
}

-- At rest nothing is under way, queued or unread.
record IsDrained (s : Flow) : Type 0 where
  up_empty : s.up ≡ []
  recv_empty : s.receiver.recv ≡ []
  down_empty : s.down ≡ []

-- One more step, unless the state is at rest.
advance : (s : Flow) → Inv s → IsDrained s ⊎ ((e : Event) × Advances e s)
advance s v = go s.up s.receiver.recv s.down refl refl refl
  where
    go :
        (up recv down : List Frame)
        → s.up ≡ up
        → s.receiver.recv ≡ recv
        → s.down ≡ down
        → IsDrained s ⊎ ((e : Event) × Advances e s)
    go [] [] [] p q r = inl (record { up_empty = p; recv_empty = q; down_empty = r })
    go (f ∷ up) recv down p q r = inr (deliver false, deliver-Advances s f up v p)
    go [] (f ∷ recv) down p q r = inr (consume, consume-Advances s f recv q)
    go [] [] (f ∷ down) p q r = inr (credit_back, credit-Advances s f down r)

record Drains (s : Flow) : Type 0 where
  schedule : List Event
  rest : Flow
  reached : run schedule s ≡ moved rest
  quiet : IsDrained rest
  sound : Inv rest
  kept : rest.sent ≡ s.sent

drain : (n : ℕ) (s : Flow) → Inv s → pending s < n → Drains s
unfolding run
drain zero s v h = absurd (omega arith)
drain (suc n) s v h = elim (advance s v) [
  | inl quiet ↦ record {
    schedule = [];
    rest = s;
    reached = refl;
    quiet = quiet;
    sound = v;
    kept = refl;
  }
  | inr (e, a) ↦
      let d = drain n a.target (subst Keeps a.step (apply-Keeps e s v)) (omega (arith, a.nearer)) in
      record {
        schedule = e ∷ d.schedule;
        rest = d.rest;
        reached = rw (a.step, run) d.reached;
        quiet = d.quiet;
        sound = d.sound;
        kept = d.kept ∙ a.kept;
      }
]

drained_credit : (s : Flow) → Inv s → IsDrained s → ack_threshold < s.sender.credit
unfolding data_count credited
drained_credit s v q = ground (arith, v.units, v.unacked, q.up_empty, q.recv_empty, q.down_empty)

drained_received : (s : Flow) → Inv s → IsDrained s → s.received ≡ s.sent
unfolding payloads
drained_received s v q = (sym (rw (q.up_empty, q.recv_empty) (simp append-nil))) ∙ v.order

-- From every state that a session can reach there is a schedule of deliveries, reads and credit
-- after which everything that was sent has been processed, in order, and the sender holds more than
-- half of its window: a blocked `SendData` does not stay blocked while its peer keeps reading.
pub run-drains :
    (id : Text) (es : List Event) (t : Flow)
    → run es (open_flow id) ≡ moved t
    → (more : List Event) × (u : Flow) × (run more t ≡ moved u)
      × (u.received ≡ t.sent)
      × (ack_threshold < u.sender.credit)
run-drains id es t e =
    let (t', e', v) = run-Inv es (open_flow id) (open_flow-Inv id) in
    let d = drain (suc (pending t)) t (subst Keeps (sym e' ∙ e) v) (omega arith) in
    (
      d.schedule,
      d.rest,
      d.reached,
      drained_received d.rest d.sound d.quiet ∙ d.kept,
      drained_credit d.rest d.sound d.quiet,
    )
