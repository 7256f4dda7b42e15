-- ===== src/Session/Flow/Safety.antt =====
-- What flow control of internal/datatunnel guarantees under every schedule.
use airpc.Prelude.{
  ◌+◌, ◌≤◌, ◌≡◌, refl, sym, ◌∙◌, List, [], ◌∷◌, ◌++◌, Text, length, arith, append_assoc,
}
use airpc.Session.{send_window, recv_capacity}
use airpc.Session.Flow.{
  Flow, open_flow, Event, send_data, send_control, deliver, consume, credit_back, Next, moved,
  stuck, killed, apply, run,
}
use airpc.Session.Flow.Counting.{data_count, payloads, length-count}
use airpc.Session.Flow.Window.{
  Inv, Keeps, open_flow-Inv, sends-Keeps, sends_control-Keeps, delivers-Keeps,
}
use airpc.Session.Flow.Consuming.{consumes-Keeps, credits_back-Keeps}

pub apply-Keeps : (e : Event) (s : Flow) → Inv s → Keeps (apply e s)
unfolding apply
apply-Keeps (send_data pick k p) s v = sends-Keeps s v pick k p
apply-Keeps (send_control f) s v = sends_control-Keeps s v f
apply-Keeps (deliver pick) s v = delivers-Keeps s v pick
apply-Keeps consume s v = consumes-Keeps s v
apply-Keeps credit_back s v = credits_back-Keeps s v

abbrev pub Safe : Next → Type 0
Safe r = (t : Flow) × (r ≡ moved t) × Inv t

pub run-Inv : (es : List Event) (s : Flow) → Inv s → Safe (run es s)
unfolding run
run-Inv [] s v = (s, refl, v)
run-Inv (e ∷ es) s v = go (apply e s) refl (apply-Keeps e s v) (run-Inv es)
  where
    go :
        (r : Next)
        → apply e s ≡ r
        → Keeps r
        → ((t : Flow) → Inv t → Safe (run es t))
        → Safe (run (e ∷ es) s)
    go (moved t) q k ih = rw (q, run) (ih t k)
    go stuck q k ih = rw (q, run) (ih s v)
    go killed q k ih = absurd k

-- The promises of flow control in a state: at most `send_window` data frames are under way or
-- queued, the receive queue is within its capacity, and what has been processed is the beginning
-- of what was sent, the rest being queued or under way in order.
pub record IsFlowing (t : Flow) : Type 0 where
  pub in_flight : data_count t.up + data_count t.receiver.recv ≤ send_window
  pub queue : length t.receiver.recv ≤ recv_capacity
  pub lossless : t.sent ≡ t.received ++ (payloads t.receiver.recv ++ payloads t.up)

-- Under every schedule of sends, deliveries, reads and credit, with at most eight control frames,
-- a new session is never killed for overrunning its window, at most 32 data frames are in flight,
-- the receive queue keeps its capacity, and no payload is lost, duplicated or reordered.
pub run-IsFlowing :
    (id : Text) (es : List Event) → (t : Flow) × (run es (open_flow id) ≡ moved t) × IsFlowing t
run-IsFlowing id es =
    let (t, e, v) = run-Inv es (open_flow id) (open_flow-Inv id) in
    (
      t,
      e,
      record {
        in_flight = omega (arith, v.units);
        queue = omega (arith, v.units, v.controlled, v.budget, length-count t.receiver.recv);
        lossless = sym (sym (append_assoc t.received _ _) ∙ v.order);
      },
    )
