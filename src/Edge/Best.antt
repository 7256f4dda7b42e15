-- ===== src/Edge/Best.antt =====
-- Which route the sorted list of internal/edge/edge.go picks, described without sorting.
use airpc.Prelude.{
  ℕ, ◌≤◌, ◌≡◌, inl, inr, refl, sym, true, false, List, [], ◌∷◌, Option, none, some, Text, ltb, All,
  arith, Bool-cases, Option-cases, if◌then◌else◌,
}
use airpc.Edge.{
  PublicRoute, HttpRequest, weight, insert_route, sort_routes, route_suffix, match_route,
}

abbrev pub Match : Type 0
Match = Option (PublicRoute × Text)

-- The earlier match stays unless the later one is strictly heavier.
abbrev pub prefer : PublicRoute × Text → Match → Match
prefer a none = some a
prefer a (some b) = if ltb (weight a.0) (weight b.0) then some b else some a

-- The choice once a further route in front has a suffix or none.
abbrev pub choose : PublicRoute → Option Text → Match → Match
choose r none m = m
choose r (some suffix) m = prefer (r, suffix) m

-- The heaviest matching route, and the first of those in the order of the configuration.
unfoldable pub best_match : List PublicRoute → HttpRequest → Match
best_match [] q = none
best_match (r ∷ rs) q = choose r (route_suffix r q) (best_match rs q)

abbrev Below : ℕ → List PublicRoute → Type 0
Below n xs = All (λ y. weight y ≤ n) xs

abbrev IsSorted : List PublicRoute → Type 0
IsSorted [] = Unit {0}
IsSorted (x ∷ xs) = Below (weight x) xs × IsSorted xs

mono-Below : (m n : ℕ) (xs : List PublicRoute) → m ≤ n → Below m xs → Below n xs
mono-Below m n [] le b = tt
mono-Below m n (x ∷ xs) le b = (omega (arith, b.0), mono-Below m n xs le b.1)

insert-Below :
    (n : ℕ) (r : PublicRoute) (xs : List PublicRoute)
    → weight r ≤ n
    → Below n xs
    → Below n (insert_route r xs)
unfolding insert_route
insert-Below n r [] le b = (le, tt)
insert-Below n r (x ∷ xs) le b = elim (Bool-cases (ltb (weight r) (weight x))) [
  | inl e ↦ rw e (b.0, insert-Below n r xs le b.1)
  | inr e ↦ rw e (le, b)
]

insert-IsSorted :
    (r : PublicRoute) (xs : List PublicRoute) → IsSorted xs → IsSorted (insert_route r xs)
unfolding insert_route
insert-IsSorted r [] s = (tt, tt)
insert-IsSorted r (x ∷ xs) s = elim (Bool-cases (ltb (weight r) (weight x))) [
  | inl e ↦ rw e (insert-Below (weight x) r xs (ground arith) s.0, insert-IsSorted r xs s.1)
  | inr e ↦
      let le : weight x ≤ weight r = ground arith in
      rw e ((le, mono-Below (weight x) (weight r) xs le s.0), s)
]

sort-IsSorted : (rs : List PublicRoute) → IsSorted (sort_routes rs)
unfolding sort_routes
sort-IsSorted [] = tt
sort-IsSorted (r ∷ rs) = insert-IsSorted r (sort_routes rs) (sort-IsSorted rs)

-- A match is no heavier than a bound on the list.
match-Below :
    (n : ℕ) (xs : List PublicRoute) (q : HttpRequest) (m : PublicRoute) (t : Text)
    → Below n xs
    → match_route xs q ≡ some (m, t)
    → weight m ≤ n
unfolding match_route
match-Below n [] q m t b h = absurd (ground arith)
match-Below n (x ∷ xs) q m t b h = elim (Option-cases (route_suffix x q)) [
  | inl e ↦ match-Below n xs q m t b.1 (ground arith)
  | inr (u, e) ↦
      let k : ◌≡◌ {A = Option (PublicRoute × Text)} (some (x, u)) (some (m, t)) = ground arith in
      let d : x ≡ m = ground arith in rw (sym d) b.0
]

match_bounded :
    (r : PublicRoute) (u : Text) (xs : List PublicRoute) (q : HttpRequest)
    → Below (weight r) xs
    → prefer (r, u) (match_route xs q) ≡ some (r, u)
match_bounded r u xs q b = elim (Option-cases (match_route xs q)) [
  | inl e ↦ rw e refl
  | inr ((m, t), e) ↦
      let le = match-Below (weight r) xs q m t b e in
      let f : ltb (weight r) (weight m) ≡ false = ground arith in rw e (rw f refl)
]

insert_heavier :
    (r x : PublicRoute) (xs : List PublicRoute)
    → ltb (weight r) (weight x) ≡ true
    → insert_route r (x ∷ xs) ≡ x ∷ insert_route r xs
unfolding insert_route
insert_heavier r x xs e = rw e refl

insert_lighter :
    (r x : PublicRoute) (xs : List PublicRoute)
    → ltb (weight r) (weight x) ≡ false
    → insert_route r (x ∷ xs) ≡ r ∷ x ∷ xs
unfolding insert_route
insert_lighter r x xs e = rw e refl

match_miss :
    (x : PublicRoute) (xs : List PublicRoute) (q : HttpRequest)
    → route_suffix x q ≡ none
    → match_route (x ∷ xs) q ≡ match_route xs q
unfolding match_route
match_miss x xs q e = ground (arith, e)

match_hit :
    (x : PublicRoute) (xs : List PublicRoute) (q : HttpRequest) (u : Text)
    → route_suffix x q ≡ some u
    → match_route (x ∷ xs) q ≡ some (x, u)
unfolding match_route
match_hit x xs q u e = ground (arith, e)

singleton :
    (r : PublicRoute) (q : HttpRequest)
    → match_route (insert_route r []) q ≡ choose r (route_suffix r q) (match_route [] q)
unfolding match_route insert_route
singleton r q = elim (Option-cases (route_suffix r q)) [
  | inl e ↦ ground (arith, e)
  | inr (u, e) ↦ ground (arith, e)
]

in_front :
    (r : PublicRoute) (xs : List PublicRoute) (q : HttpRequest)
    → Below (weight r) xs
    → match_route (r ∷ xs) q ≡ choose r (route_suffix r q) (match_route xs q)
in_front r xs q b = elim (Option-cases (route_suffix r q)) [
  | inl e ↦ rw (match_miss r xs q e, e) refl
  | inr (u, e) ↦ rw (match_hit r xs q u e, e) (sym (match_bounded r u xs q b))
]

behind :
    (r x : PublicRoute) (xs : List PublicRoute) (q : HttpRequest)
    → ltb (weight r) (weight x) ≡ true
    → match_route (insert_route r xs) q ≡ choose r (route_suffix r q) (match_route xs q)
    → match_route (x ∷ insert_route r xs) q ≡ choose r (route_suffix r q) (match_route (x ∷ xs) q)
behind r x xs q e ih = elim (Option-cases (route_suffix x q)) [
  | inl f ↦ rw (match_miss x (insert_route r xs) q f, match_miss x xs q f) ih
  | inr (u, f) ↦
      rw (match_hit x (insert_route r xs) q u f, match_hit x xs q u f)
        (elim (Option-cases (route_suffix r q)) [
          | inl g ↦ rw g refl
          | inr (v, g) ↦ rw g (rw e refl)
        ])
]

-- A route that is inserted takes part in the choice as one more candidate in front.
match-insert :
    (r : PublicRoute) (xs : List PublicRoute) (q : HttpRequest)
    → IsSorted xs
    → match_route (insert_route r xs) q ≡ choose r (route_suffix r q) (match_route xs q)
match-insert r [] q s = singleton r q
match-insert r (x ∷ xs) q s = elim (Bool-cases (ltb (weight r) (weight x))) [
  | inl e ↦ rw (insert_heavier r x xs e) (behind r x xs q e (match-insert r xs q s.1))
  | inr e ↦
      let le : weight x ≤ weight r = ground arith in
      let b : Below (weight r) (x ∷ xs) = (le, mono-Below (weight x) (weight r) xs le s.0) in
      rw (insert_lighter r x xs e) (in_front r (x ∷ xs) q b)
]

-- Going through the sorted list finds the best match of the configuration.
pub match_route-sort_routes :
    (rs : List PublicRoute) (q : HttpRequest) → match_route (sort_routes rs) q ≡ best_match rs q
unfolding match_route sort_routes best_match
match_route-sort_routes [] q = refl
match_route-sort_routes (r ∷ rs) q =
    let ih = match_route-sort_routes rs q in
    let e = match-insert r (sort_routes rs) q (sort-IsSorted rs) in rw (sym ih) e
