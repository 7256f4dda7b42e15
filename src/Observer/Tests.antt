-- ===== src/Observer/Tests.antt =====
-- The observer at concrete bytes and frames.
use airpc.Prelude.{
  ◌≡◌, ◌↔◌, refl, true, none, some, List, [], ◌∷◌, text, text_eq, length, drop, has_prefix, All,
  arith, is_digit, decimal, parse_int, parse_uint, split_first,
}
use airpc.Observer.{
  meta_headers, rst_stream, Event, client_read, backend_read, new_observer, observe, method_pattern,
}
use airpc.Observer.Feed.{Call, put_bytes, close_done, read_into, got, eof, run, new_pipe, put, call}
use airpc.Observer.Refines.{Runs, view, run-Runs}
use airpc.Observer.Prefaces.{read_preface, read_preface-has_prefix}
use airpc.Observer.Labels.{IsMethod, method_pattern_iff}
use airpc.Observer.Histories.{RecordedBy, happened}
use airpc.Observer.Rpcs.{observe-RecordedBy}
use airpc.Observer.Delivery.{IsInOrder, put_in, delivered, run-IsInOrder}

abbrev calls : List Call
calls =
    put_bytes (text "PRI")
    ∷ put_bytes []
    ∷ read_into 2
    ∷ put_bytes (text " *")
    ∷ close_done
    ∷ read_into 9
    ∷ read_into 9
    ∷ read_into 9
    ∷ []

replies_test :
    (run new_pipe calls).0
    ≡ none
      ∷ none
      ∷ some (got (text "PR"))
      ∷ none
      ∷ none
      ∷ some (got (text "I"))
      ∷ some (got (text " *"))
      ∷ some eof
      ∷ []
unfolding run call put
replies_test = refl

run-Runs_example : Runs (view new_pipe) calls (run new_pipe calls).0 (view (run new_pipe calls).1)
run-Runs_example = run-Runs new_pipe calls (omega arith)

run-IsInOrder_example :
    IsInOrder [] (put_in calls) (delivered (run new_pipe calls).0) (view (run new_pipe calls).1)
run-IsInOrder_example = run-IsInOrder calls (omega arith)

read_preface-has_prefix_example :
    ((read_preface (text "PRI") (run new_pipe calls).1).0
      ≡ has_prefix (view (run new_pipe calls).1).pending (text "PRI"))
    × ((view (read_preface (text "PRI") (run new_pipe calls).1).1).pending
        ≡ drop (length (text "PRI")) (view (run new_pipe calls).1).pending)
read_preface-has_prefix_example = read_preface-has_prefix (text "PRI") (run new_pipe calls).1

abbrev events : List Event
events =
    client_read 10 (some (meta_headers 1 (text "/pkg.Greeter/Hello") []))
    ∷ client_read 11 (some (meta_headers 3 (text "/bad path") []))
    ∷ backend_read 14 (some (meta_headers 1 [] ((text ":status", text "200") ∷ [])))
    ∷ backend_read 15 (some (meta_headers 1 [] ((text "grpc-status", text "5") ∷ [])))
    ∷ backend_read 16 (some (rst_stream 3))
    ∷ backend_read 17 (some (rst_stream 3))
    ∷ []

events_test :
    (observe (new_observer true) events).recorded
    ≡ record { method = text "/pkg.Greeter/Hello"; code = text "5"; duration = 5 }
      ∷ record { method = text "other"; code = text "canceled"; duration = 5 }
      ∷ []
unfolding observe text_eq split_first parse_int parse_uint decimal is_digit
events_test = refl

observe-RecordedBy_example :
    All
      (RecordedBy (happened (new_observer true) events))
      (observe (new_observer true) events).recorded
observe-RecordedBy_example = observe-RecordedBy true events

method_pattern_iff_example : (method_pattern (text "/a.B/C") ≡ true) ↔ IsMethod (text "/a.B/C")
method_pattern_iff_example = method_pattern_iff (text "/a.B/C")
