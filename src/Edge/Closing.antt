-- ===== src/Edge/Closing.antt =====
-- The closing of what the edge (internal/edge/edge.go) holds open.
use airpc.Prelude.{
  ℕ, zero, suc, ◌≤◌, ◌≡◌, ◌⊎◌, inl, inr, refl, Bool, true, false, List, [], ◌∷◌, ◌==◌,
  if◌then◌else◌, arith,
}
use airpc.Edge.Server.{
  Resource, nats_connection, metrics_listener, public_listener, data_listener, route_listener,
  same_resource, close, close_listeners,
}

-- With the metrics, or without.
abbrev pub left : Bool → List Resource
left metrics = if metrics then metrics_listener ∷ [] else []

abbrev pub base : Bool → List Resource
base metrics = if metrics then metrics_listener ∷ nats_connection ∷ [] else nats_connection ∷ []

-- The listeners of the first `n` routes on top of the others.
abbrev pub routes_on : ℕ → List Resource → List Resource
routes_on zero held = held
routes_on (suc n) held = route_listener n ∷ routes_on n held

-- All that a server of `n` TCP routes holds open.
abbrev pub all_open : ℕ → Bool → List Resource
all_open n metrics = routes_on n (data_listener ∷ public_listener ∷ base metrics)

abbrev pub is_route : Resource → Bool
is_route nats_connection = false
is_route metrics_listener = false
is_route public_listener = false
is_route data_listener = false
is_route (route_listener i) = true

pub other_resource :
    (r : Resource) (i : ℕ) → is_route r ≡ false → same_resource r (route_listener i) ≡ false
unfolding same_resource
other_resource nats_connection i h = refl
other_resource metrics_listener i h = refl
other_resource public_listener i h = refl
other_resource data_listener i h = refl
other_resource (route_listener j) i h = absurd (ground arith)

-- The listeners of routes stay open when another resource is closed.
pub close-routes_on :
    (r : Resource) (n : ℕ) (held : List Resource)
    → is_route r ≡ false
    → close r (routes_on n held) ≡ routes_on n (close r held)
unfolding close
close-routes_on r zero held h = refl
close-routes_on r (suc n) held h = ground (arith, other_resource r n h, close-routes_on r n held h)

pub close_listeners_above :
    (n k : ℕ) (held : List Resource)
    → k ≤ n
    → close_listeners k (route_listener n ∷ held) ≡ route_listener n ∷ close_listeners k held
unfolding close_listeners close same_resource
close_listeners_above n zero held h = refl
close_listeners_above n (suc k) held h =
    let ih = close_listeners_above n k held (omega arith) in
    let other : (k == n) ≡ false = ground arith in ground (arith, ih)

pub close_listeners-routes_on :
    (n : ℕ) (held : List Resource) → close_listeners n (routes_on n held) ≡ held
unfolding close_listeners close same_resource
close_listeners-routes_on zero held = refl
close_listeners-routes_on (suc n) held =
    let above = close_listeners_above n n (routes_on n held) (omega arith) in
    let ih = close_listeners-routes_on n held in ground (arith, above, ih)

-- Everything but the metrics is closed.
pub close_all :
    (n : ℕ) (metrics : Bool)
    → close nats_connection
        (close_listeners n (close data_listener (close public_listener (all_open n metrics))))
      ≡ left metrics
unfolding close same_resource
close_all n metrics =
    let under = data_listener ∷ public_listener ∷ base metrics in
    let p = close-routes_on public_listener n under refl in
    let d = close-routes_on data_listener n (data_listener ∷ base metrics) refl in
    let r = close_listeners-routes_on n (base metrics) in rw (p, d, r) (close_base metrics)
  where
    close_base : (metrics : Bool) → close nats_connection (base metrics) ≡ left metrics
    close_base true = refl
    close_base false = refl

-- Nothing but the listener of the metrics.
abbrev pub OnlyMetrics : List Resource → Type 0
OnlyMetrics held = (held ≡ []) ⊎ (held ≡ metrics_listener ∷ [])

pub left-OnlyMetrics : (metrics : Bool) → OnlyMetrics (left metrics)
left-OnlyMetrics true = inr refl
left-OnlyMetrics false = inl refl
