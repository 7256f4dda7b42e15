-- ===== src/Relay/EndTests.antt =====
-- WebSocket relays and the idle guard at concrete runs.
use airpc.Prelude.{
  ℕ, ◌+◌, ◌/◌, ◌%◌, ◌≤◌, ◌≡◌, ◌↔◌, refl, true, false, Option, some, List, [], ◌∷◌, Text, text,
  text_eq, ℤ, pos, pos_part, eqb_ℤ, if◌then◌else◌, arith,
}
use airpc.Tunnel.{data_text, data_binary}
use airpc.Session.{data_of, close_of, close_code_of}
use airpc.Relay.WebSockets.{
  text_message, binary_message, other_message, WsEvent, read_message, read_over, received,
  idle_fired, WsRelay, new_ws_relay, is_bad_code, relay_websocket,
}
use airpc.Relay.Messages.{heard, with_code, ended_by}
use airpc.Relay.Ends.{IsTold}
use airpc.Relay.Told.{Comes, all_come, comes, says, wakes, relay_websocket-IsTold}
use airpc.Relay.Idle.{
  IdleEvent, active, fires, new_idle_guard, watch, watch_step, watching, gave_up, last_active,
  watch-gives_up_iff,
}

abbrev talk : List WsEvent
talk =
    read_message (text_message, text "hi")
    ∷ read_message (other_message, text "?")
    ∷ received (data_of (text "s1") data_text (text "yo")) true
    ∷ read_message (binary_message, text "ok")
    ∷ read_over (some (pos 1001, text "bye"))
    ∷ []

-- Close messages as the library documents them: a code in two bytes and the text, and nothing for 1005.
abbrev format_close_message : ℤ → Text → Text
format_close_message code reason =
    if eqb_ℤ code (pos 1005) then [] else pos_part code / 256 ∷ pos_part code % 256 ∷ reason

abbrev run : List WsEvent → WsRelay
run es = relay_websocket format_close_message (text "s1") new_ws_relay es

-- The other end, whose socket says something and whose timer fires early.
abbrev there : List WsEvent
there =
    received (data_of (text "s1") data_text (text "hi")) true
    ∷ read_message (text_message, text "well")
    ∷ received (data_of (text "s1") data_binary (text "ok")) true
    ∷ idle_fired false
    ∷ received (close_code_of (text "s1") (pos 1001) (text "bye")) true
    ∷ received (close_of (text "s1")) true
    ∷ []

told_test :
    ((run there).written ≡ (text_message, text "hi") ∷ (binary_message, text "ok") ∷ [])
    × ((run there).closing ≡ some (3 ∷ 233 ∷ text "bye"))
unfolding relay_websocket text_eq
told_test = (refl, refl)

close_test :
    ((run (received (close_code_of (text "s1") (pos 1005) []) true ∷ [])).closing ≡ some [])
    × ((run (read_over (some (pos 999, [])) ∷ [])).sent ≡ close_of (text "s1") ∷ [])
unfolding relay_websocket text_eq is_bad_code
close_test = (refl, refl)

coming : Comes (run talk).sent there
unfolding relay_websocket text_eq is_bad_code
coming = comes _ (says _ (comes _ (wakes (comes _ (comes _ all_come)))))

relay_websocket-IsTold_example :
    IsTold
      (heard format_close_message (text "s1") new_ws_relay talk)
      (with_code format_close_message (ended_by format_close_message (text "s1") new_ws_relay talk))
      (run talk).running
      (run there)
relay_websocket-IsTold_example =
    relay_websocket-IsTold format_close_message (text "s1") (text "s1") talk there coming

-- Activity at 4 moves the end of the time from 10 to 14.
abbrev quiet : List IdleEvent
quiet = active 4 ∷ fires 0 ∷ []

quiet_test :
    watch (new_idle_guard 10 0) quiet
    ≡ watching (record { timeout = 10; last = 4; timer = some 14 })
unfolding watch new_idle_guard
quiet_test = refl

watch-gives_up_iff_example :
    (deadline : ℕ) × (◌≡◌ {A = Option ℕ} (some 14) (some deadline))
    × (deadline ≤ last_active 0 quiet + 10)
    × ((late : ℕ)
        → (watch_step (record { timeout = 10; last = 4; timer = some 14 }) (fires late)
            ≡ gave_up (deadline + late))
          ↔ (last_active 0 quiet + 10 ≤ deadline + late))
watch-gives_up_iff_example =
    watch-gives_up_iff 10 0 quiet (record { timeout = 10; last = 4; timer = some 14 }) (omega arith)
      (omega arith) quiet_test
