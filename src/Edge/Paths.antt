-- ===== src/Edge/Paths.antt =====
-- Path prefixes and suffixes of internal/edge/edge.go.
use airpc.Prelude.{
  ℕ, ◌≡◌, ◌↔◌, ◌⊎◌, inl, inr, refl, sym, ◌∙◌, true, false, [], ◌∷◌, ◌++◌, append-nil, some, Text,
  text, text_eq, text_eq_iff, is_empty, has_prefix, has_prefix-append, has_prefix_split,
  trim_prefix, trim_prefix-append, err, arith, Bool-cases, if◌then◌else◌, ◌==◌,
}
use airpc.Unary.{relative_path, validate_path}
use airpc.Edge.{
  PublicRoute, HttpRequest, host_matches, ends_in_slash, path_has_prefix, with_query, or_slash,
  route_suffix,
}

-- The path is the prefix and a rest, which begins a path segment.
abbrev pub IsUnder : Text → Text → Type 0
IsUnder path prefix =
    (rest : Text) × (path ≡ prefix ++ rest)
    × ((rest ≡ []) ⊎ (ends_in_slash prefix ≡ true) ⊎ (has_prefix rest (text "/") ≡ true))

trim_prefix_split : (s p : Text) → has_prefix s p ≡ true → s ≡ p ++ trim_prefix s p
unfolding trim_prefix
trim_prefix_split s p h = let e = has_prefix_split s p h in rw h e

sound-IsUnder : (path prefix : Text) → path_has_prefix path prefix ≡ true → IsUnder path prefix
unfolding path_has_prefix
sound-IsUnder path prefix h = elim (Bool-cases (text_eq path prefix)) [
  | inl e ↦ ([], (text_eq_iff path prefix).0 e ∙ sym (append-nil prefix), inl refl)
  | inr e ↦
      let p : has_prefix path prefix ≡ true = ground arith in
      (trim_prefix path prefix, trim_prefix_split path prefix p, inr (ground arith))
]

complete-IsUnder : (path prefix : Text) → IsUnder path prefix → path_has_prefix path prefix ≡ true
unfolding path_has_prefix
complete-IsUnder path prefix (rest, e, inl nothing) =
    let f : path ≡ prefix = rw (e, nothing) (append-nil prefix) in
    let g = (text_eq_iff path prefix).1 f in ground (arith, g)
complete-IsUnder path prefix (rest, e, inr h) =
    let p = has_prefix-append prefix rest in
    let t = trim_prefix-append prefix rest in rw e (ground (arith, p, t, h))

-- `pathHasPrefix` cuts paths only between segments: `/api` is a prefix of `/api/v1` and not of
-- `/apiary`.
pub path_has_prefix_iff :
    (path prefix : Text) → (path_has_prefix path prefix ≡ true) ↔ IsUnder path prefix
path_has_prefix_iff path prefix = (sound-IsUnder path prefix, complete-IsUnder path prefix)

query-absolute :
    (p q : Text) → has_prefix p (text "/") ≡ true → has_prefix (with_query p q) (text "/") ≡ true
unfolding with_query has_prefix
query-absolute [] q h = absurd (ground arith)
query-absolute (c ∷ p) q h = ground arith

kept :
    (rest : Text)
    → has_prefix rest (text "/") ≡ true
    → has_prefix (if is_empty rest then text "/" else rest) (text "/") ≡ true
kept [] h = has_prefix-append (text "/") []
kept (c ∷ rest) h = h

absolute-IsUnder :
    (path prefix : Text)
    → IsUnder path prefix
    → ends_in_slash prefix ≡ false
    → has_prefix (or_slash (trim_prefix path prefix)) (text "/") ≡ true
unfolding or_slash
absolute-IsUnder path prefix (rest, e, inl nothing) s =
    let t = trim_prefix-append prefix rest in
    rw e (rw t (rw nothing (has_prefix-append (text "/") [])))
absolute-IsUnder path prefix (rest, e, inr (inl slash)) s = absurd (ground arith)
absolute-IsUnder path prefix (rest, e, inr (inr slash)) s =
    let t = trim_prefix-append prefix rest in rw e (rw t (kept rest slash))

suffix-absolute :
    (path prefix : Text)
    → path_has_prefix path prefix ≡ true
    → ends_in_slash prefix ≡ false
    → has_prefix (or_slash (trim_prefix path prefix)) (text "/") ≡ true
suffix-absolute path prefix h s = absolute-IsUnder path prefix (sound-IsUnder path prefix h) s

-- The suffix that a route leaves of a matching request is an absolute path, unless the prefix of the
-- route ends in a slash.
pub route_suffix-absolute :
    (r : PublicRoute) (q : HttpRequest) (suffix : Text)
    → ends_in_slash r.prefix ≡ false
    → route_suffix r q ≡ some suffix
    → has_prefix suffix (text "/") ≡ true
unfolding route_suffix
route_suffix-absolute r q suffix s h =
    let whole = query-absolute (text "/") q.raw_query (has_prefix-append (text "/") []) in
    elim (Bool-cases (path_has_prefix q.path r.prefix)) [
      | inl e ↦
          let under =
            query-absolute (or_slash (trim_prefix q.path r.prefix)) q.raw_query
              (suffix-absolute q.path r.prefix e s) in
          ground (arith, whole, under)
      | inr e ↦ ground (arith, whole)
    ]

slash_not_empty : (s : Text) → ends_in_slash s ≡ true → is_empty s ≡ false
unfolding ends_in_slash
slash_not_empty [] h = absurd (ground arith)
slash_not_empty (c ∷ s) h = refl

query-relative :
    (c : ℕ) (rest q : Text)
    → (c == b'/') ≡ false
    → validate_path (with_query (c ∷ rest) q) ≡ err relative_path
unfolding with_query validate_path has_prefix
query-relative c rest q h = ground arith

-- A route without exact paths whose prefix ends in a slash leaves a relative suffix of every path of its
-- host that goes on behind the prefix with another character than a slash, and the envelope of the call
-- refuses that suffix, although the route matches.
pub slash_prefix_refused :
    (r : PublicRoute) (q : HttpRequest) (c : ℕ) (rest : Text)
    → host_matches r.cfg.public_host q.host ≡ true
    → r.exact ≡ []
    → ends_in_slash r.prefix ≡ true
    → q.path ≡ r.prefix ++ c ∷ rest
    → (c == b'/') ≡ false
    → (suffix : Text) × (route_suffix r q ≡ some suffix)
      × (validate_path suffix ≡ err relative_path)
unfolding route_suffix or_slash
slash_prefix_refused r q c rest hosts exact slash path h =
    let u = complete-IsUnder q.path r.prefix (c ∷ rest, path, inr (inl slash)) in
    let t : trim_prefix q.path r.prefix ≡ c ∷ rest =
      rw path (trim_prefix-append r.prefix (c ∷ rest)) in
    let e : is_empty r.prefix ≡ false = slash_not_empty r.prefix slash in
    (
      with_query (c ∷ rest) q.raw_query,
      ground (arith, hosts, exact, u, t, e),
      query-relative c rest q.raw_query h,
    )
