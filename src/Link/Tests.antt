-- ===== src/Link/Tests.antt =====
-- A link at work: two sessions, one of them overrun.
use airpc.Prelude.{
  ℕ, ◌≡◌, refl, true, false, List, [], ◌∷◌, ◌++◌, some, none, text, text_eq, length, lookup, erase,
  insert, modify, arith,
}
use airpc.Tunnel.{Frame, frame_data, new_frame}
use airpc.Tunnel.Sample.{tunnel, frame_codec}
use airpc.Session.{
  Session, new_session, take_credit, ack, add_credit, add_send_credit, arrive, receive, mark_done,
  try_claim,
}
use airpc.Link.{
  Link, new_link, find, add_session, remove_session, mark_all, close, write_frame, try_write,
  open_session, dispatch_to, dispatch, send_from, send_data, send_eof, ack_data, close_session,
  claim, receive_from,
}
use airpc.Link.History.{
  Call, accepts, arrives, history, step, Tracks, history-Tracks, close-history_done,
}
use airpc.Link.Isolation.{Untouched, dispatch-Untouched, Fate, dispatch-Fate}

links : Unit {0}
unfolding tunnel history step new_link add_session remove_session mark_all close write_frame
    try_write open_session dispatch_to dispatch send_from send_data send_eof ack_data close_session
    claim receive_from lookup erase insert modify new_session take_credit ack add_credit
    add_send_credit arrive receive try_claim
links = tt

abbrev chunk : Frame
chunk = record (new_frame frame_data (text "a")) { payload = text "x" }

abbrev repeat : ℕ → List Call → List Call
repeat ℕ.zero es = []
repeat (ℕ.suc n) es = es ++ repeat n es

abbrev two_sessions : List Call
two_sessions = accepts (text "a") ∷ accepts (text "b") ∷ arrives true chunk ∷ []

abbrev two : Link
two = record {
  store =
      record {
        id = text "a";
        recv = chunk ∷ [];
        done = false;
        credit = 32;
        consumed = 0;
        claimed = false;
      }
      ∷ record {
        id = text "b";
        recv = [];
        done = false;
        credit = 32;
        consumed = 0;
        claimed = false;
      }
      ∷ [];
  sessions = (text "b", 1) ∷ (text "a", 0) ∷ [];
  written = [];
  connected = true;
}

abbrev first : Session
first = record {
  id = text "a";
  recv = chunk ∷ [];
  done = false;
  credit = 32;
  consumed = 0;
  claimed = false;
}

two_test : history frame_codec two_sessions new_link ≡ two
unfolding links
two_test = refl

-- The forty-first unread frame kills the session, and only it.
overrun_test :
    (find
        (text "a")
        (history frame_codec (two_sessions ++ repeat 39 (arrives true chunk ∷ [])) new_link)
      ≡ some 0)
    × (find
          (text "a")
          (history frame_codec (two_sessions ++ repeat 40 (arrives true chunk ∷ [])) new_link)
        ≡ none)
    × (find
          (text "b")
          (history frame_codec (two_sessions ++ repeat 40 (arrives true chunk ∷ [])) new_link)
        ≡ some 1)
    × (length
          (history frame_codec
            (two_sessions ++ repeat 40 (arrives true chunk ∷ []))
            new_link).written
        ≡ 1)
unfolding links
overrun_test = (refl, refl, refl, refl)

history-Tracks_example : Tracks (history frame_codec two_sessions new_link) 0 first
unfolding links
history-Tracks_example = history-Tracks frame_codec two_sessions 0 first refl

close-history_done_example : (mark_done first).done ≡ true
unfolding links
close-history_done_example = close-history_done frame_codec two_sessions 0 (mark_done first) refl

dispatch-Untouched_example : Untouched two (dispatch frame_codec true chunk two) 1 (text "b")
unfolding lookup text_eq
dispatch-Untouched_example =
    dispatch-Untouched frame_codec true chunk two 1 (text "b") (λ e. ground arith)
      (λ e. ground arith)

dispatch-Fate_example : Fate chunk 0 first two (dispatch frame_codec true chunk two)
unfolding lookup text_eq
dispatch-Fate_example =
    dispatch-Fate frame_codec true chunk two 0 first refl refl refl (λ e. ground arith)
