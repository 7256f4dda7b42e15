-- ===== src/Edge/Choice.antt =====
-- The route that internal/edge/edge.go serves a request with, by its place in the configuration.
use airpc.Prelude.{
  ℕ, ◌≤◌, ◌<◌, ◌≡◌, ◌≢◌, ◌⊎◌, inl, inr, refl, sym, ◌∙◌, ap, List, [], ◌∷◌, ◌++◌, none, some, Text,
  text, text_eq, text_eq_iff, ltb, All, arith, Bool-cases, Option-cases,
}
use airpc.Config.Shape
use airpc.Config.Tokens.{mode_http, mode_websocket}
use airpc.Edge.{
  PublicRoute, HttpRequest, weight, sort_routes, routes_of, route_suffix, match_route, http_routes,
  ws_routes, Served, healthy, not_found, websocket, unary, serve_http,
}
use airpc.Edge.Best.{Match, prefer, best_match, match_route-sort_routes}

-- Routes that do not match, or are lighter; or at most as heavy.
abbrev pub Lighter : HttpRequest → ℕ → List PublicRoute → Type 0
Lighter q n rs = All (λ r. (route_suffix r q ≡ none) ⊎ (weight r < n)) rs

abbrev pub NotHeavier : HttpRequest → ℕ → List PublicRoute → Type 0
NotHeavier q n rs = All (λ r. (route_suffix r q ≡ none) ⊎ (weight r ≤ n)) rs

-- Where the match stands among the routes.
abbrev pub IsBestOf : HttpRequest → List PublicRoute → PublicRoute → Text → Type 0
IsBestOf q rs m suffix =
    (before : List PublicRoute) × (after : List PublicRoute) × (rs ≡ before ++ m ∷ after)
    × (route_suffix m q ≡ some suffix)
    × Lighter q (weight m) before
    × NotHeavier q (weight m) after

none_matches :
    (rs : List PublicRoute) (q : HttpRequest) (n : ℕ) → best_match rs q ≡ none → NotHeavier q n rs
unfolding best_match
none_matches [] q n h = tt
none_matches (r ∷ rs) q n h = elim (Option-cases (route_suffix r q)) [
  | inl e ↦ (inl e, none_matches rs q n (ground arith))
  | inr (u, e) ↦ elim (Option-cases (best_match rs q)) [
    | inl f ↦ absurd (ground arith)
    | inr ((m, t), f) ↦ absurd (ground arith)
  ]
]

bound-Lighter :
    (q : HttpRequest) (m n : ℕ) (rs : List PublicRoute) → m ≤ n → Lighter q m rs → NotHeavier q n rs
bound-Lighter q m n [] le l = tt
bound-Lighter q m n (r ∷ rs) le l =
    (elim l.0 [ inl e ↦ inl e | inr k ↦ inr (omega arith) ], bound-Lighter q m n rs le l.1)

bound-NotHeavier :
    (q : HttpRequest) (m n : ℕ) (rs : List PublicRoute)
    → m ≤ n
    → NotHeavier q m rs
    → NotHeavier q n rs
bound-NotHeavier q m n [] le l = tt
bound-NotHeavier q m n (r ∷ rs) le l =
    (elim l.0 [ inl e ↦ inl e | inr k ↦ inr (omega arith) ], bound-NotHeavier q m n rs le l.1)

append-NotHeavier :
    (q : HttpRequest) (n : ℕ) (xs ys : List PublicRoute)
    → NotHeavier q n xs
    → NotHeavier q n ys
    → NotHeavier q n (xs ++ ys)
append-NotHeavier q n [] ys a b = b
append-NotHeavier q n (x ∷ xs) ys a b = (a.0, append-NotHeavier q n xs ys a.1 b)

-- No matching route is heavier than the best match.
best-NotHeavier :
    (q : HttpRequest) (n : ℕ) (rs : List PublicRoute) (m : PublicRoute) (t : Text)
    → weight m ≤ n
    → IsBestOf q rs m t
    → NotHeavier q n rs
best-NotHeavier q n rs m t le (before, after, split, hit, low, high) = rw split (
    append-NotHeavier q n before (m ∷ after) (bound-Lighter q (weight m) n before le low)
      (inr le, bound-NotHeavier q (weight m) n after le high))

-- The route in front against the best match of the others.
later :
    (r : PublicRoute) (rs : List PublicRoute) (q : HttpRequest) (m : PublicRoute) (t u : Text)
    (n : PublicRoute) (v : Text)
    → route_suffix r q ≡ some u
    → IsBestOf q rs n v
    → prefer (r, u) (some (n, v)) ≡ some (m, t)
    → IsBestOf q (r ∷ rs) m t
later r rs q m t u n v e (before, after, split, hit, low, high) h =
    elim (Bool-cases (ltb (weight r) (weight n))) [
      | inl l ↦
          let k : ◌≡◌ {A = Match} (some (n, v)) (some (m, t)) = ground arith in
          let i : n ≡ m = ground arith in
          let j : v ≡ t = ground arith in
          rw (sym i, sym j)
            (r ∷ before, after, ap (λ l. r ∷ l) split, hit, (inr (ground arith), low), high)
      | inr l ↦
          let k : ◌≡◌ {A = Match} (some (r, u)) (some (m, t)) = ground arith in
          let i : r ≡ m = ground arith in
          let j : u ≡ t = ground arith in
          let le : weight n ≤ weight r = ground arith in
          let all = best-NotHeavier q (weight r) rs n v le (before, after, split, hit, low, high) in
          rw (sym i, sym j) ([], rs, refl, e, tt, all)
    ]

-- The match in the order of the configuration.
best_match_split :
    (rs : List PublicRoute) (q : HttpRequest) (m : PublicRoute) (t : Text)
    → best_match rs q ≡ some (m, t)
    → IsBestOf q rs m t
unfolding best_match
best_match_split [] q m t h = absurd (ground arith)
best_match_split (r ∷ rs) q m t h = elim (Option-cases (route_suffix r q)) [
  | inl e ↦
      let (before, after, split, hit, low, high) = best_match_split rs q m t (ground arith) in
      (r ∷ before, after, ap (λ l. r ∷ l) split, hit, (inl e, low), high)
  | inr (u, e) ↦ elim (Option-cases (best_match rs q)) [
    | inl f ↦
        let k : ◌≡◌ {A = Match} (some (r, u)) (some (m, t)) = ground arith in
        let i : r ≡ m = ground arith in
        let j : u ≡ t = ground arith in
        ([], rs, ap (λ x. x ∷ rs) i, rw (sym i, sym j) e, tt, none_matches rs q (weight m) f)
    | inr ((n, v), f) ↦ later r rs q m t u n v e (best_match_split rs q n v f) (ground arith)
  ]
]

best_match-none :
    (rs : List PublicRoute) (q : HttpRequest)
    → best_match rs q ≡ none
    → All (λ r. route_suffix r q ≡ none) rs
unfolding best_match
best_match-none [] q h = tt
best_match-none (r ∷ rs) q h = elim (Option-cases (route_suffix r q)) [
  | inl e ↦ (e, best_match-none rs q (ground arith))
  | inr (u, e) ↦ elim (Option-cases (best_match rs q)) [
    | inl f ↦ absurd (ground arith)
    | inr ((m, t), f) ↦ absurd (ground arith)
  ]
]

none-best_match :
    (rs : List PublicRoute) (q : HttpRequest)
    → All (λ r. route_suffix r q ≡ none) rs
    → best_match rs q ≡ none
unfolding best_match
none-best_match [] q h = refl
none-best_match (r ∷ rs) q h = rw (h.0, none-best_match rs q h.1) refl

-- A match among the sorted routes is the best of them as they are configured.
match_route-IsBestOf :
    (rs : List PublicRoute) (q : HttpRequest) (m : PublicRoute) (t : Text)
    → match_route (sort_routes rs) q ≡ some (m, t)
    → IsBestOf q rs m t
match_route-IsBestOf rs q m t h = best_match_split rs q m t (sym (match_route-sort_routes rs q) ∙ h)

abbrev pub NoneOf : HttpRequest → List PublicRoute → Type 0
NoneOf q rs = All (λ r. route_suffix r q ≡ none) rs

match_route-NoneOf :
    (rs : List PublicRoute) (q : HttpRequest) → match_route (sort_routes rs) q ≡ none → NoneOf q rs
match_route-NoneOf rs q h = best_match-none rs q (sym (match_route-sort_routes rs q) ∙ h)

abbrev health_path : Text
health_path = text "/_airpc/healthz"

-- What a configuration says of a request: the health check by its path; else the best WebSocket route, the
-- best HTTP route if no WebSocket route matches, or none if no route matches.
abbrev pub IsChosen : List Shape.Route → HttpRequest → Served → Type 0
IsChosen rs q healthy = q.path ≡ health_path
IsChosen rs q (websocket r suffix) =
    (q.path ≢ health_path) × IsBestOf q (routes_of mode_websocket rs) r suffix
IsChosen rs q (unary r suffix) =
    (q.path ≢ health_path)
    × NoneOf q (routes_of mode_websocket rs)
    × IsBestOf q (routes_of mode_http rs) r suffix
IsChosen rs q not_found =
    (q.path ≢ health_path)
    × NoneOf q (routes_of mode_websocket rs)
    × NoneOf q (routes_of mode_http rs)

-- Every request is served by what the configuration says: one for the path of the health check by that;
-- any other by the WebSocket route that matches it, the heaviest (by the lengths of prefix and exact path)
-- and the first of these in the configuration; if no WebSocket route matches, by the HTTP route that is
-- chosen in the same way; and where it is not found, none of these routes matches.
pub serve_http-IsChosen :
    (rs : List Shape.Route) (q : HttpRequest)
    → IsChosen rs q (serve_http (ws_routes rs) (http_routes rs) q)
unfolding http_routes ws_routes serve_http
serve_http-IsChosen rs q = elim (Bool-cases (text_eq q.path health_path)) [
  | inl e ↦ rw e ((text_eq_iff q.path health_path).0 e)
  | inr e ↦
      let other : q.path ≢ health_path =
        λ p. let t = (text_eq_iff q.path health_path).1 p in absurd (ground (arith, e, t)) in
      let sockets = routes_of mode_websocket rs in
      let calls = routes_of mode_http rs in
      elim (Option-cases (match_route (sort_routes sockets) q)) [
        | inr ((m, t), f) ↦ rw e (rw f (other, match_route-IsBestOf sockets q m t f))
        | inl f ↦ elim (Option-cases (match_route (sort_routes calls) q)) [
          | inr ((m, t), g) ↦ rw e (
              rw f
                (rw g (other, match_route-NoneOf sockets q f, match_route-IsBestOf calls q m t g)))
          | inl g ↦
              rw e
                (rw f (rw g (other, match_route-NoneOf sockets q f, match_route-NoneOf calls q g)))
        ]
      ]
]
