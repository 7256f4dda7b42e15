-- ===== src/Session/Flow/Tests.antt =====
-- Flow control on short schedules.
use airpc.Prelude.{
  ℕ, ◌<◌, ◌≡◌, refl, Bool, true, false, List, [], ◌∷◌, ◌++◌, Text, text, text_eq, length,
}
use airpc.Tunnel.{data_binary}
use airpc.Session.{
  ack_threshold, new_session, take_credit, ack, add_credit, add_send_credit, arrive, receive,
}
use airpc.Session.Flow.{
  Flow, Event, send_data, deliver, consume, credit_back, Next, moved, stuck, open_flow, apply, run,
  sends, sends_control, delivers, acknowledges, consumes, credits_back, is_data, is_window,
}
use airpc.Session.Flow.Safety.{IsFlowing, run-IsFlowing}
use airpc.Session.Flow.Drain.{run-drains}

flow : Unit {0}
unfolding open_flow apply run sends sends_control delivers acknowledges consumes credits_back
    is_data is_window text_eq new_session take_credit ack add_credit add_send_credit arrive receive
flow = tt

abbrev repeat : ℕ → List Event → List Event
repeat ℕ.zero es = []
repeat (ℕ.suc n) es = es ++ repeat n es

-- Sixteen chunks sent, delivered and read bring one window frame back.
abbrev round_trip : List Event
round_trip =
    repeat 16 (send_data true data_binary (text "x") ∷ deliver true ∷ consume ∷ [])
    ++ credit_back ∷ []

abbrev credit_after : Next → ℕ
credit_after (moved t) = t.sender.credit
credit_after _ = 0

abbrev sent_after : Next → ℕ
sent_after (moved t) = length t.sent
sent_after _ = 0

abbrev blocked_after : Next → Bool
blocked_after (moved t) = elim (apply (send_data true data_binary []) t) [
  | stuck ↦ true
  | _ ↦ false
]
blocked_after _ = false

credit_test :
    (credit_after (run round_trip (open_flow (text "s"))) ≡ 32)
    × (sent_after
          (run (repeat 40 (send_data true data_binary (text "x") ∷ [])) (open_flow (text "s")))
        ≡ 32)
    × (blocked_after
          (run (repeat 32 (send_data true data_binary (text "x") ∷ [])) (open_flow (text "s")))
        ≡ true)
unfolding flow
credit_test = (refl, refl, refl)

run-IsFlowing_example : (t : Flow) × (run round_trip (open_flow (text "s")) ≡ moved t) × IsFlowing t
run-IsFlowing_example = run-IsFlowing (text "s") round_trip

abbrev one_sent : Flow
one_sent = record {
  sender = record {
    id = text "s";
    recv = [];
    done = false;
    credit = 31;
    consumed = 0;
    claimed = false;
  };
  receiver = record {
    id = text "s";
    recv = [];
    done = false;
    credit = 32;
    consumed = 0;
    claimed = false;
  };
  up =
      record {
        version = airpc.Prelude.ℤ.pos 1;
        frame_type = text "data";
        session_id = text "s";
        route = [];
        kind = [];
        data_kind = data_binary;
        payload = text "x";
        window = airpc.Prelude.ℤ.pos 0;
        close_code = airpc.Prelude.ℤ.pos 0;
        error = [];
      }
      ∷ [];
  down = [];
  sent = text "x" ∷ [];
  received = [];
  controls = 0;
}

run-drains_example :
    (more : List Event) × (u : Flow) × (run more one_sent ≡ moved u)
    × (u.received ≡ one_sent.sent)
    × (ack_threshold < u.sender.credit)
unfolding flow
run-drains_example =
    run-drains (text "s") (send_data true data_binary (text "x") ∷ []) one_sent refl
