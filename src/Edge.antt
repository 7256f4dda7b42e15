-- ===== src/Edge.antt =====
-- internal/edge/edge.go and data.go: the public side of the gateway. This file has the routing of
-- one HTTP request; hosts are taken to be ASCII.
pub mod Best
pub mod Choice
pub mod Paths
pub mod Tunnels
pub mod Drops
pub mod Registry
pub mod Opens
pub mod Handshake
pub mod Calls
pub mod Recorder
pub mod Shown
pub mod Counted
pub mod EndToEnd
pub mod Outcomes
pub mod Admission
pub mod Streams
pub mod Bodies
pub mod Server
pub mod Closing
pub mod Startup
pub mod Listeners
pub mod Encrypted
pub mod Dialling
pub mod Conns
mod CallSample
mod CallTests
mod StartTests
mod Tests
use airpc.Prelude.{
  ℕ, ◌+◌, ◌≡◌, Bool, true, false, ◌&&◌, ◌||◌, not, List, [], ◌∷◌, ◌++◌, Option, none, some, Text,
  text, text_eq, is_empty, has_prefix, trim_prefix, to_lower, trim_space, equal_fold,
  split_host_port, length, ltb, ℤ, pos, ltb_ℤ, leb_ℤ, if◌then◌else◌,
}
use airpc.Config.Shape
use airpc.Config.Shape.{max_inline_request}
use airpc.Config.Tokens.{mode_http, mode_grpc, mode_websocket, mode_tcp}

-- The struct `route`.
pub record PublicRoute : Type 0 where
  pub cfg : Shape.Route
  pub prefix : Text
  pub exact : Text

-- What the routing reads of an `http.Request`: the host, and the path and query of its URL.
pub record HttpRequest : Type 0 where
  pub host : Text
  pub path : Text
  pub raw_query : Text

-- `len(r.prefix) + len(r.exact)`, by which routes are sorted.
abbrev pub weight : PublicRoute → ℕ
weight r = length r.prefix + length r.exact

-- One step of `sort.SliceStable`, as insertion: a route goes before all that are not heavier.
unfoldable pub insert_route : PublicRoute → List PublicRoute → List PublicRoute
insert_route r [] = r ∷ []
insert_route r (x ∷ xs) =
    let rest = insert_route r xs in if ltb (weight r) (weight x) then x ∷ rest else r ∷ x ∷ xs

unfoldable pub sort_routes : List PublicRoute → List PublicRoute
unfolding insert_route
sort_routes [] = []
sort_routes (r ∷ rs) = insert_route r (sort_routes rs)

abbrev pub public_route : Shape.Route → PublicRoute
public_route r = record { cfg = r; prefix = r.public_prefix; exact = r.public_path }

-- The loops of `httpRoutes` and `wsRoutes`.
unfoldable pub routes_of : Text → List Shape.Route → List PublicRoute
routes_of mode [] = []
routes_of mode (r ∷ rs) =
    let rest = routes_of mode rs in if text_eq r.mode mode then public_route r ∷ rest else rest

unfoldable pub http_routes : List Shape.Route → List PublicRoute
unfolding routes_of sort_routes
http_routes routes = sort_routes (routes_of mode_http routes)

unfoldable pub ws_routes : List Shape.Route → List PublicRoute
unfolding routes_of sort_routes
ws_routes routes = sort_routes (routes_of mode_websocket routes)

unfoldable pub tcp_routes : List Shape.Route → List Shape.Route
tcp_routes [] = []
tcp_routes (r ∷ rs) =
    let rest = tcp_routes rs in
    if text_eq r.mode mode_tcp || text_eq r.mode mode_grpc then r ∷ rest else rest

unfoldable pub normalize_host : Text → Text
normalize_host host =
    let trimmed = trim_space (to_lower host) in
    elim (split_host_port trimmed) [ some (h, port) ↦ h | none ↦ trimmed ]

unfoldable pub host_matches : Text → Text → Bool
host_matches route_host request_host =
    is_empty route_host || equal_fold (normalize_host route_host) (normalize_host request_host)

-- `strings.HasSuffix(s, "/")`
unfoldable pub ends_in_slash : Text → Bool
ends_in_slash [] = false
ends_in_slash (c ∷ s) = text_eq (c ∷ s) (text "/") || ends_in_slash s

unfoldable pub path_has_prefix : Text → Text → Bool
path_has_prefix path prefix =
    if text_eq path prefix
    then true
    else if not (has_prefix path prefix)
    then false
    else ends_in_slash prefix || has_prefix (trim_prefix path prefix) (text "/")

unfoldable pub with_query : Text → Text → Text
with_query path raw_query = if is_empty raw_query then path else path ++ (text "?" ++ raw_query)

unfoldable pub or_slash : Text → Text
or_slash suffix = if is_empty suffix then text "/" else suffix

-- The body of the loop of `matchRoute`: the suffix, if the route matches.
unfoldable pub route_suffix : PublicRoute → HttpRequest → Option Text
route_suffix r q =
    if not (host_matches r.cfg.public_host q.host)
    then none
    else if not (is_empty r.exact) && text_eq q.path r.exact
    then some (with_query (text "/") q.raw_query)
    else if not (is_empty r.prefix) && path_has_prefix q.path r.prefix
    then some (with_query (or_slash (trim_prefix q.path r.prefix)) q.raw_query)
    else none

unfoldable pub match_route : List PublicRoute → HttpRequest → Option (PublicRoute × Text)
match_route [] q = none
match_route (r ∷ rs) q = elim (route_suffix r q) [
  | some suffix ↦ some (r, suffix)
  | none ↦ match_route rs q
]

-- What `handler.ServeHTTP` does with a request.
pub data Served : Type 0 where
  healthy not_found : Served
  websocket unary : PublicRoute → Text → Served

unfoldable pub serve_http : List PublicRoute → List PublicRoute → HttpRequest → Served
unfolding match_route
serve_http ws_routes http_routes q =
    if text_eq q.path (text "/_airpc/healthz") then healthy else elim (match_route ws_routes q) [
      | some (r, suffix) ↦ websocket r suffix
      | none ↦ elim (match_route http_routes q) [
        | some (r, suffix) ↦ unary r suffix
        | none ↦ not_found
      ]
    ]

abbrev pub default_request_limit : ℤ
default_request_limit = pos 1048576

-- 30 seconds in nanoseconds.
abbrev pub default_timeout : ℤ
default_timeout = pos 30000000000

unfoldable pub route_request_limit : Shape.Route → ℤ
unfolding max_inline_request
route_request_limit r =
    if leb_ℤ (max_inline_request r) (pos 0) then default_request_limit else max_inline_request r

unfoldable pub route_timeout : Shape.Route → ℤ
route_timeout r = if ltb_ℤ (pos 0) r.timeout then r.timeout else default_timeout
