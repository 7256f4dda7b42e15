-- ===== src/Edge/Conns.antt =====
-- The connections of clients in internal/edge/data.go: `serveTCPRoute`, `handleTCPConn` and
-- `handleWebSocketRoute`, and the connection that counts what it relays (`observedConn`).
use airpc.Prelude.{
  ℕ, ◌+◌, ◌≡◌, refl, inl, inr, ◌∙◌, Bool, true, false, List, [], ◌∷◌, Option, none, some, Text,
  text, text_eq, is_empty, length, ℤ, pos, Result, ok, err, if◌then◌else◌, arith, Bool-cases,
}
use airpc.Config.Shape
use airpc.Config.Tokens.{mode_grpc}
use airpc.Observer.Feed.{Pipe, Call, put_bytes, call, run, new_pipe}
use airpc.Edge.{PublicRoute}

-- `observedConn`; the observer has a pipe for each direction, and there is none unless the route is gRPC.
pub record ObservedConn : Type 0 where
  pub bytes_in : ℕ
  pub bytes_out : ℕ
  pub observer : Option (Pipe × Pipe)

unfoldable pub observe_conn : Shape.Route → ObservedConn
observe_conn r = record {
  bytes_in = 0;
  bytes_out = 0;
  observer = if text_eq r.mode mode_grpc then some (new_pipe, new_pipe) else none;
}

-- `o.client.put(p)`
abbrev pub put_on : Text → Pipe → Pipe
put_on p q = (call q (put_bytes p)).1

abbrev pub client_bytes : Text → Option (Pipe × Pipe) → Option (Pipe × Pipe)
client_bytes p none = none
client_bytes p (some (client, backend)) = some (put_on p client, backend)

abbrev pub backend_bytes : Text → Option (Pipe × Pipe) → Option (Pipe × Pipe)
backend_bytes p none = none
backend_bytes p (some (client, backend)) = some (client, put_on p backend)

-- `Read`, for the bytes that the connection under it has read.
unfoldable pub observed_read : Text → ObservedConn → ObservedConn
observed_read p c =
    if is_empty p
    then c
    else record c { bytes_in = c.bytes_in + length p; observer = client_bytes p c.observer }

-- `Write`, for the bytes that the connection under it has written.
unfoldable pub observed_write : Text → ObservedConn → ObservedConn
observed_write p c =
    if is_empty p
    then c
    else record c { bytes_out = c.bytes_out + length p; observer = backend_bytes p c.observer }

-- What a relay does on the connection.
pub data Use : Type 0 where
  reads : Text → Use
  writes : Text → Use

unfoldable pub use_conn : ObservedConn → List Use → ObservedConn
unfolding observed_read observed_write
use_conn c [] = c
use_conn c (reads p ∷ us) = use_conn (observed_read p c) us
use_conn c (writes p ∷ us) = use_conn (observed_write p c) us

-- The bytes in each direction, and the chunks of them that are not empty.
abbrev pub read_chunks : List Use → List Text
read_chunks [] = []
read_chunks (reads p ∷ us) = if is_empty p then read_chunks us else p ∷ read_chunks us
read_chunks (writes p ∷ us) = read_chunks us

abbrev pub written_chunks : List Use → List Text
written_chunks [] = []
written_chunks (writes p ∷ us) = if is_empty p then written_chunks us else p ∷ written_chunks us
written_chunks (reads p ∷ us) = written_chunks us

abbrev pub total : List Text → ℕ
total [] = 0
total (p ∷ ps) = length p + total ps

abbrev pub puts : List Text → List Call
puts [] = []
puts (p ∷ ps) = put_bytes p ∷ puts ps

abbrev pub feeds : Option (Pipe × Pipe) → List Use → Option (Pipe × Pipe)
feeds none us = none
feeds (some (client, backend)) us =
    some ((run client (puts (read_chunks us))).1, (run backend (puts (written_chunks us))).1)

-- The counters have counted every byte, and the observer has been handed every chunk, each in its direction.
pub record IsCounted (c : ObservedConn) (us : List Use) (d : ObservedConn) : Type 0 where
  pub counted_in : d.bytes_in ≡ c.bytes_in + total (read_chunks us)
  pub counted_out : d.bytes_out ≡ c.bytes_out + total (written_chunks us)
  pub observed : d.observer ≡ feeds c.observer us

feeds_read :
    (p : Text) (o : Option (Pipe × Pipe)) (us : List Use)
    → is_empty p ≡ false
    → feeds (client_bytes p o) us ≡ feeds o (reads p ∷ us)
unfolding run
feeds_read p none us h = refl
feeds_read p (some (client, backend)) us h = rw h refl

feeds_written :
    (p : Text) (o : Option (Pipe × Pipe)) (us : List Use)
    → is_empty p ≡ false
    → feeds (backend_bytes p o) us ≡ feeds o (writes p ∷ us)
unfolding run
feeds_written p none us h = refl
feeds_written p (some (client, backend)) us h = rw h refl

feeds_nothing : (o : Option (Pipe × Pipe)) → o ≡ feeds o []
unfolding run
feeds_nothing none = refl
feeds_nothing (some (client, backend)) = refl

feeds_same_read :
    (p : Text) (o : Option (Pipe × Pipe)) (us : List Use)
    → is_empty p ≡ true
    → feeds o us ≡ feeds o (reads p ∷ us)
feeds_same_read p none us h = refl
feeds_same_read p (some (client, backend)) us h = rw h refl

feeds_same_write :
    (p : Text) (o : Option (Pipe × Pipe)) (us : List Use)
    → is_empty p ≡ true
    → feeds o us ≡ feeds o (writes p ∷ us)
feeds_same_write p none us h = refl
feeds_same_write p (some (client, backend)) us h = rw h refl

-- A read or a write before the others.
read-IsCounted :
    (p : Text) (c : ObservedConn) (us : List Use) (d : ObservedConn)
    → IsCounted (observed_read p c) us d
    → IsCounted c (reads p ∷ us) d
unfolding observed_read
read-IsCounted p c us d rest = elim (Bool-cases (is_empty p)) [
  | inl e ↦ record {
    counted_in = ground (arith, e, rest.counted_in);
    counted_out = ground (arith, e, rest.counted_out);
    observed = ground (arith, e, rest.observed) ∙ feeds_same_read p c.observer us e;
  }
  | inr e ↦ record {
    counted_in = ground (arith, e, rest.counted_in);
    counted_out = ground (arith, e, rest.counted_out);
    observed = ground (arith, e, rest.observed) ∙ feeds_read p c.observer us e;
  }
]

write-IsCounted :
    (p : Text) (c : ObservedConn) (us : List Use) (d : ObservedConn)
    → IsCounted (observed_write p c) us d
    → IsCounted c (writes p ∷ us) d
unfolding observed_write
write-IsCounted p c us d rest = elim (Bool-cases (is_empty p)) [
  | inl e ↦ record {
    counted_in = ground (arith, e, rest.counted_in);
    counted_out = ground (arith, e, rest.counted_out);
    observed = ground (arith, e, rest.observed) ∙ feeds_same_write p c.observer us e;
  }
  | inr e ↦ record {
    counted_in = ground (arith, e, rest.counted_in);
    counted_out = ground (arith, e, rest.counted_out);
    observed = ground (arith, e, rest.observed) ∙ feeds_written p c.observer us e;
  }
]

-- A connection counts the bytes of both directions, and hands an observer, if it has one, every chunk that
-- is not empty, in the order in which they pass and each in its direction.
pub use_conn-IsCounted : (c : ObservedConn) (us : List Use) → IsCounted c us (use_conn c us)
unfolding use_conn
use_conn-IsCounted c [] = record {
  counted_in = omega arith;
  counted_out = omega arith;
  observed = feeds_nothing c.observer;
}
use_conn-IsCounted c (reads p ∷ us) =
    read-IsCounted p c us (use_conn c (reads p ∷ us)) (use_conn-IsCounted (observed_read p c) us)
use_conn-IsCounted c (writes p ∷ us) =
    write-IsCounted p c us (use_conn c (writes p ∷ us)) (use_conn-IsCounted (observed_write p c) us)

-- What becomes of a client's connection: it is closed, with a close message on a WebSocket, or relayed to
-- a session until it is idle too long.
pub data Handling (S : Type 0) : Type 0 where
  not_upgraded closed : Handling S
  closed_with : ℤ → Text → Handling S
  relayed : S → ℤ → Handling S

module _ {E : Type 0} {S : Type 0} (open_session : Text → Text → Result E S) where
  -- `handleTCPConn`, with the result of `requestID`; `open_session` is `openDataSession` for a session id
  -- and a path.
  unfoldable pub handle_tcp_conn : Shape.Route → Option Text → Handling S
  handle_tcp_conn r none = closed
  handle_tcp_conn r (some session_id) = elim (open_session session_id (text "/")) [
    | err e ↦ closed
    | ok session ↦ relayed session r.idle_timeout
  ]

  -- `handleWebSocketRoute`; 1011 is `CloseInternalServerErr`, 1013 is `CloseTryAgainLater`.
  unfoldable pub handle_websocket_route : PublicRoute → Text → Bool → Option Text → Handling S
  handle_websocket_route r suffix false id = not_upgraded
  handle_websocket_route r suffix true none = closed_with (pos 1011) (text "session id")
  handle_websocket_route r suffix true (some session_id) = elim (open_session session_id suffix) [
    | err e ↦ closed_with (pos 1013) (text "connector unavailable")
    | ok session ↦ relayed session r.cfg.idle_timeout
  ]

-- How `Accept` returns: a connection, or an error, with whether the listener or the context is closed.
pub data Accepted (C : Type 0) : Type 0 where
  accepted : C → Accepted C
  accept_failed : Bool → Text → Accepted C

-- `serveTCPRoute` over the results of `Accept`: the connections that it has handed on, and its error.
unfoldable pub serve_tcp_route : {C : Type 0} → List (Accepted C) → List C × Option Text
serve_tcp_route [] = ([], none)
serve_tcp_route (accepted c ∷ more) = let rest = serve_tcp_route more in (c ∷ rest.0, rest.1)
serve_tcp_route (accept_failed is_closed e ∷ more) = ([], if is_closed then none else some e)
