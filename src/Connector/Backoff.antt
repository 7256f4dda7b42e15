-- ===== src/Connector/Backoff.antt =====
-- The redialling of internal/connector/data.go: how long `tunnelClient.run` waits before it dials
-- again. Times are in nanoseconds and never negative.
use airpc.Prelude.{ℕ, ◌*◌, ◌≤◌, ◌≡◌, ◌⊎◌, List, [], ◌∷◌, ltb, ◌==◌, if◌then◌else◌, arith}

abbrev pub reconnect_backoff_min : ℕ
reconnect_backoff_min = 250000000

abbrev pub reconnect_backoff_max : ℕ
reconnect_backoff_max = 5000000000

abbrev pub reconnect_stable_after : ℕ
reconnect_stable_after = 30000000000

unfoldable pub next_backoff : ℕ → ℕ
next_backoff current =
    if current == 0
    then reconnect_backoff_min
    else if ltb reconnect_backoff_max (current * 2)
    then reconnect_backoff_max
    else current * 2

-- What the loop of `run` meets: the context ends, a dial fails or succeeds, a link that has lasted
-- some time drops.
pub data Event : Type 0 where
  context_ended dial_failed dialled : Event
  dropped : ℕ → Event

-- Where the loop stands: about to dial after a wait, on a link with the wait before it, or returned.
-- The link of `setLink` is set in the middle one only.
pub data Phase : Type 0 where
  waiting connected : ℕ → Phase
  stopped : Phase

unfoldable pub after_drop : ℕ → ℕ → ℕ
unfolding next_backoff
after_drop lasted backoff = if ltb reconnect_stable_after lasted then 0 else next_backoff backoff

unfoldable pub step : Phase → Event → Phase
unfolding after_drop
step (waiting b) context_ended = stopped
step (waiting b) dial_failed = waiting (next_backoff b)
step (waiting b) dialled = connected b
step (waiting b) (dropped t) = waiting b
step (connected b) context_ended = stopped
step (connected b) dial_failed = connected b
step (connected b) dialled = connected b
step (connected b) (dropped t) = waiting (after_drop t b)
step stopped e = stopped

-- `run`, which dials at once at first.
unfoldable pub run : Phase → List Event → Phase
unfolding step
run s [] = s
run s (e ∷ es) = run (step s e) es

-- No wait, or one between the two bounds.
abbrev pub IsBackoff : ℕ → Type 0
IsBackoff b = (b ≡ 0) ⊎ ((reconnect_backoff_min ≤ b) × (b ≤ reconnect_backoff_max))

abbrev pub HasBackoff : Phase → Type 0
HasBackoff (waiting b) = IsBackoff b
HasBackoff (connected b) = IsBackoff b
HasBackoff stopped = Unit {0}

next-IsBackoff : (b : ℕ) → IsBackoff b → IsBackoff (next_backoff b)
unfolding next_backoff
next-IsBackoff b h = ground (arith, h)

drop-IsBackoff : (t b : ℕ) → IsBackoff b → IsBackoff (after_drop t b)
unfolding after_drop next_backoff
drop-IsBackoff t b h = ground (arith, h)

step-HasBackoff : (s : Phase) (e : Event) → HasBackoff s → HasBackoff (step s e)
unfolding step
step-HasBackoff (waiting b) context_ended h = tt
step-HasBackoff (waiting b) dial_failed h = next-IsBackoff b h
step-HasBackoff (waiting b) dialled h = h
step-HasBackoff (waiting b) (dropped t) h = h
step-HasBackoff (connected b) context_ended h = tt
step-HasBackoff (connected b) dial_failed h = h
step-HasBackoff (connected b) dialled h = h
step-HasBackoff (connected b) (dropped t) h = drop-IsBackoff t b h
step-HasBackoff stopped e h = h

-- However dials and links fail, the connector waits at most five seconds before it dials again; and
-- it waits at least a quarter of a second, unless it dials for the first time or its last link was
-- stable.
pub run-HasBackoff : (s : Phase) (es : List Event) → HasBackoff s → HasBackoff (run s es)
unfolding run
run-HasBackoff s [] h = h
run-HasBackoff s (e ∷ es) h = run-HasBackoff (step s e) es (step-HasBackoff s e h)
