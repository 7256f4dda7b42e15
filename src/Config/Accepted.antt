-- ===== src/Config/Accepted.antt =====
-- What an accepted configuration of internal/config/config.go promises as a whole.
use airpc.Prelude.{◌≡◌, ◌≢◌, List, [], ◌∷◌, ◌++◌, Text, text, All, ok, arith}
use mathlib.Core.List.{append_cancel_left, append_cancel_right}
use airpc.Url.{UrlParser}
use airpc.Config.Tokens.{unary_subject, open_subject}
use airpc.Config.Shape
use airpc.Config.Shape.{Config}
use airpc.Config.Checks.{edge_tls, config_validate}
use airpc.Config.Names.{Distinct, IsUsable, config_validate-IsUsable}
use airpc.Config.Routes.{IsReachable, check_routes-IsReachable}

-- Routes that differ in their names have different subjects.
unary_subject-inj : (a b : Text) → unary_subject a ≡ unary_subject b → a ≡ b
unfolding unary_subject
unary_subject-inj a b h =
    append_cancel_right a b (text ".unary")
      (append_cancel_left (text "airpc.v1.route.") (a ++ text ".unary") (b ++ text ".unary") h)

open_subject-inj : (a b : Text) → open_subject a ≡ open_subject b → a ≡ b
unfolding open_subject
open_subject-inj a b h =
    append_cancel_right a b (text ".open")
      (append_cancel_left (text "airpc.v1.route.") (a ++ text ".open") (b ++ text ".open") h)

-- No route has the subject of an earlier one.
abbrev pub HaveOwnSubjects : List Shape.Route → Type 0
HaveOwnSubjects [] = Unit {0}
HaveOwnSubjects (r ∷ rs) =
    All
      (λ q.
        (unary_subject q.name ≢ unary_subject r.name) × (open_subject q.name ≢ open_subject r.name))
      rs
    × HaveOwnSubjects rs

others :
    (r : Shape.Route) (rs : List Shape.Route)
    → All (λ q. q.name ≢ r.name) rs
    → All
        (λ q.
          (unary_subject q.name ≢ unary_subject r.name)
          × (open_subject q.name ≢ open_subject r.name))
        rs
others r [] d = tt
others r (q ∷ rs) (d, ds) = (
  (λ e. d (unary_subject-inj q.name r.name e), λ e. d (open_subject-inj q.name r.name e)),
  others r rs ds,
)

apart : (rs : List Shape.Route) → Distinct rs → HaveOwnSubjects rs
apart [] d = tt
apart (r ∷ rs) (d, ds) = (others r rs d, apart rs ds)

module _ (parse : UrlParser) where
  -- An accepted configuration has routes, and every route has: a token as its name, a known mode, limits and
  -- timeouts that are not negative, header names to forward that are HTTP tokens, and TLS only with its
  -- own listener and the edge's certificate; a target that its mode can be relayed to (a URL of the
  -- schemes of the mode with a host and without credentials, or an address); and a public side (below a
  -- prefix or at a path, or an address to listen on). No two routes share a name, the subject of calls or
  -- the subject of opens.
  pub config_validate-IsReachable :
      (c : Config)
      → config_validate parse c ≡ ok tt
      → (c.routes ≢ [])
        × All (λ r. IsUsable (edge_tls c.edge.tls) r) c.routes
        × All (λ r. IsReachable parse r) c.routes
        × Distinct c.routes
        × HaveOwnSubjects c.routes
  unfolding config_validate
  config_validate-IsReachable c h =
      let (some_routes, distinct, usable) = config_validate-IsUsable parse c h in
      let reachable =
        check_routes-IsReachable parse (edge_tls c.edge.tls) 0 [] c.routes (ground (arith, h)) in
      (some_routes, usable, reachable, distinct, apart c.routes distinct)
