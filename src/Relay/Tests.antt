-- ===== src/Relay/Tests.antt =====
-- A relay at a concrete run.
use airpc.Prelude.{◌≡◌, refl, true, false, List, [], ◌∷◌, text, text_eq}
use airpc.Tunnel.{frame_eof, new_frame, data_binary}
use airpc.Session.{data_of, eof_of, close_of}
use airpc.Relay.{Event, read_chunk, read_eof, received, idle_fired, new_relay, relay_conn}
use airpc.Relay.Reading.{chunks_read, came_to_end}
use airpc.Relay.Writing.{is_benign, frames_in}
use airpc.Relay.Carried.{IsCarried, relay_conn-IsCarried}

abbrev run : List Event
run =
    read_chunk (text "q")
    ∷ read_eof true
    ∷ received (new_frame frame_eof (text "s1")) true
    ∷ read_chunk (text "x")
    ∷ []

run_test :
    (relay_conn (text "s1") new_relay run).sent
    ≡ data_of (text "s1") data_binary (text "q") ∷ eof_of (text "s1") ∷ close_of (text "s1") ∷ []
unfolding relay_conn text_eq
run_test = refl

-- The other end reads as well, while the frames come in.
abbrev beyond : List Event
beyond =
    received (data_of (text "s1") data_binary (text "q")) true
    ∷ read_chunk (text "y")
    ∷ received (eof_of (text "s1")) true
    ∷ idle_fired false
    ∷ received (close_of (text "s1")) true
    ∷ []

relay_conn-IsCarried_example :
    IsCarried (text "q" ∷ []) true true (relay_conn (text "s2") new_relay beyond)
unfolding relay_conn text_eq chunks_read came_to_end is_benign frames_in
relay_conn-IsCarried_example = relay_conn-IsCarried (text "s1") (text "s2") run beyond refl refl
