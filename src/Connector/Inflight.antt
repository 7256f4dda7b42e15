-- ===== src/Connector/Inflight.antt =====
-- The calls in flight of `httpProxy` in internal/connector/proxy.go: `track`, its deregistration and
-- `cancel`. A context is an address in a list that tells which contexts have been cancelled.
use airpc.Prelude.{
  ℕ, ◌≡◌, Bool, true, false, List, [], ◌∷◌, ◌++◌, Option, none, some, Text, length, get_elem?,
  lookup, insert, erase, modify,
}

pub record Inflight : Type 0 where
  pub contexts : List Bool
  pub calls : List (Text × ℕ)

abbrev pub no_calls : Inflight
no_calls = record { contexts = []; calls = [] }

-- `context.WithCancel` and `track` at the start of `forward`: the context of the call.
unfoldable pub track : Text → Inflight → ℕ × Inflight
track id c = (
  length c.contexts,
  record { contexts = c.contexts ++ false ∷ []; calls = insert id (length c.contexts) c.calls },
)

abbrev pub cancel_context : ℕ → Inflight → Inflight
cancel_context p c = record c { contexts = modify (λ _. true) p c.contexts }

-- `cancelBackend()` and `untrack()` at the end of a call, inline or streamed.
unfoldable pub finish : Text → ℕ → Inflight → Inflight
finish id p c = record (cancel_context p c) { calls = erase id c.calls }

-- `cancel`
unfoldable pub cancel : Text → Inflight → Inflight
cancel id c = elim (lookup id c.calls) [ none ↦ c | some p ↦ cancel_context p c ]

-- The calls by the addresses of their contexts: the id of one that is still in flight, and none for one that
-- has ended.
abbrev pub Started : Type 0
Started = List (Option Text)

abbrev pub InFlight : Started → ℕ → Text → Type 0
InFlight calls p id = get_elem? calls p ≡ some (some id)

-- What can happen: a call starts under an id that no call in flight has, as the edge draws ids at random;
-- a call in flight ends, with the context that it has got and the id that it was started under; a cancel
-- message comes; a context ends with its deadline or its stream.
pub data Step : Inflight → Started → Inflight → Started → Type 0 where
  started :
      {c : Inflight} {calls : Started} (id : Text)
      → ((p : ℕ) → InFlight calls p id → ⊥)
      → Step c calls (track id c).1 (calls ++ some id ∷ [])
  finished :
      {c : Inflight} {calls : Started} (id : Text) (p : ℕ)
      → InFlight calls p id
      → Step c calls (finish id p c) (modify (λ _. none) p calls)
  cancelled : {c : Inflight} {calls : Started} (id : Text) → Step c calls (cancel id c) calls
  expired : {c : Inflight} {calls : Started} (p : ℕ) → Step c calls (cancel_context p c) calls

pub data Reachable : Inflight → Started → Type 0 where
  fresh : Reachable no_calls []
  after :
      {c d : Inflight} {calls calls' : Started}
      → Reachable c calls
      → Step c calls d calls'
      → Reachable d calls'
