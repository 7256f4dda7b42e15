-- ===== src/Config/Routes.antt =====
-- What an accepted configuration of internal/config/config.go says of targets, public URLs and listeners.
use airpc.Prelude.{
  ℕ, suc, ◌≡◌, ◌≢◌, ◌≤◌, ◌⊎◌, inl, inr, refl, sym, ◌∙◌, ap, subst, Bool, ◌&&◌, ◌||◌, not, true,
  false, List, [], ◌∷◌, some, Text, text, text_eq, text_eq_iff, is_empty, has_prefix, contains_any,
  all, is_digit, decimal, parse_uint, split_host_port, All, ok, arith, Bool-cases, Option-cases,
}
use airpc.Url.{Url, UrlParser}
use airpc.Config.Tokens.{mode_http, mode_tcp, mode_grpc, mode_websocket, valid_mode}
use airpc.Config.Addresses.{
  one_of, validate_host_port, validate_path, validate_url_target, validate_route_target,
}
use airpc.Config.Shape
use airpc.Config.Shape.{Config}
use airpc.Config.Checks.{
  validate_public_url, validate_route_public_fields, route_validate, check_routes,
}
use airpc.Unary.Requests.{is_empty_iff}

-- host:port with a port up to 65535; without a host, it is a colon and the port.
pub record IsAddress (s : Text) : Type 0 where
  pub host : Text
  pub port : Text
  pub parts : split_host_port s ≡ some (host, port)
  pub host_or_all : (host ≢ []) ⊎ (has_prefix s (text ":") ≡ true)
  pub port_given : port ≢ []
  pub digits : all is_digit port ≡ true
  pub in_range : decimal port ≤ 65535

abbrev pub IsPublicPath : Text → Type 0
IsPublicPath s =
    (s ≡ []) ⊎ ((has_prefix s (text "/") ≡ true) × (contains_any s (text "?#") ≡ false))

abbrev HasScheme : Text → Url → Type 0
HasScheme mode u =
    ((mode ≡ text "http") × ((u.scheme ≡ text "http") ⊎ (u.scheme ≡ text "https")))
    ⊎ ((mode ≡ text "websocket") × ((u.scheme ≡ text "ws") ⊎ (u.scheme ≡ text "wss")))

abbrev IsBytes : Text → Type 0
IsBytes mode = (mode ≡ text "tcp") ⊎ (mode ≡ text "grpc")

-- A target that the mode can be relayed to: a URL with a host, without credentials; or an address.
pub data HasTarget (parse : UrlParser) (r : Shape.Route) : Type 0 where
  at_url :
      (u : Url)
      → parse r.target ≡ some u
      → HasScheme r.mode u
      → u.host ≢ []
      → u.has_user ≡ false
      → HasTarget parse r
  at_address : IsBytes r.mode → IsAddress r.target → HasTarget parse r

-- Where clients reach the route: below a prefix or at a path of a host; or at its own listener.
pub data HasPublicSide (r : Shape.Route) : Type 0 where
  at_path :
      (r.mode ≡ text "http") ⊎ (r.mode ≡ text "websocket")
      → contains_any r.public_host (text "/?#") ≡ false
      → (r.public_prefix ≢ []) ⊎ (r.public_path ≢ [])
      → IsPublicPath r.public_prefix
      → IsPublicPath r.public_path
      → HasPublicSide r
  at_listener : IsBytes r.mode → IsAddress r.listen → HasPublicSide r

abbrev pub IsReachable : UrlParser → Shape.Route → Type 0
IsReachable parse r = HasTarget parse r × HasPublicSide r

validate_host_port-IsAddress : (field s : Text) → validate_host_port field s ≡ ok tt → IsAddress s
unfolding validate_host_port parse_uint
validate_host_port-IsAddress field s h = elim (Option-cases (split_host_port s)) [
  | inl e ↦ absurd (ground (arith, e, h))
  | inr ((host, port), e) ↦ record {
    host = host;
    port = port;
    parts = e;
    host_or_all = elim (Bool-cases (is_empty host)) [
      | inl none_given ↦ inr (ground (arith, e, h, none_given))
      | inr given ↦ inl ((is_empty_iff host).0 given)
    ];
    port_given = (is_empty_iff port).0 (ground (arith, e, h));
    digits = ground (arith, e, h);
    in_range = ground (arith, e, h);
  }
]

validate_path-IsPublicPath : (field s : Text) → validate_path field s ≡ ok tt → IsPublicPath s
unfolding validate_path
validate_path-IsPublicPath field [] h = inl refl
validate_path-IsPublicPath field (c ∷ s) h = inr (ground (arith, h), ground (arith, h))

one_of_two : (s a b : Text) → one_of s (a ∷ b ∷ []) ≡ true → (s ≡ a) ⊎ (s ≡ b)
unfolding one_of
one_of_two s a b h = elim (Bool-cases (text_eq s a)) [
  | inl e ↦ inl ((text_eq_iff s a).0 e)
  | inr n ↦ inr ((text_eq_iff s b).0 (ground (arith, n, h)))
]

-- Modes, one after the other.
mode_split : (m : Text) → valid_mode m ≡ true → ((m ≡ mode_http) ⊎ (m ≡ mode_websocket)) ⊎ IsBytes m
unfolding valid_mode
mode_split m h = ground (
  arith,
  h,
  text_eq_iff m mode_http,
  text_eq_iff m mode_websocket,
  text_eq_iff m mode_tcp,
  text_eq_iff m mode_grpc,
)

no_chars :
    (s chars : Text)
    → (not (is_empty s) && contains_any s chars) ≡ false
    → contains_any s chars ≡ false
unfolding contains_any
no_chars [] chars h = refl
no_chars (c ∷ s) chars h = h

one_given : (s t : Text) → (is_empty s && is_empty t) ≡ false → (s ≢ []) ⊎ (t ≢ [])
one_given [] t h = inr ((is_empty_iff t).0 h)
one_given (c ∷ s) t h = inl ((is_empty_iff (c ∷ s)).0 refl)

-- The tests of the code at a mode of bytes.
bytes_mode :
    (m : Text)
    → IsBytes m
    → (text_eq m mode_http ≡ false)
      × (text_eq m mode_websocket ≡ false)
      × ((text_eq m mode_tcp || text_eq m mode_grpc) ≡ true)
unfolding text_eq
bytes_mode m (inl e) =
    subst
      (λ x.
        (text_eq x mode_http ≡ false)
        × (text_eq x mode_websocket ≡ false)
        × ((text_eq x mode_tcp || text_eq x mode_grpc) ≡ true))
      (sym e) (refl, refl, refl)
bytes_mode m (inr e) =
    subst
      (λ x.
        (text_eq x mode_http ≡ false)
        × (text_eq x mode_websocket ≡ false)
        × ((text_eq x mode_tcp || text_eq x mode_grpc) ≡ true))
      (sym e) (refl, refl, refl)

url_side :
    (i : ℕ) (r : Shape.Route)
    → (r.mode ≡ text "http") ⊎ (r.mode ≡ text "websocket")
    → validate_public_url i r ≡ ok tt
    → HasPublicSide r
unfolding validate_public_url
url_side i r m u =
    at_path m (no_chars r.public_host (text "/?#") (ground (arith, u)))
      (one_given r.public_prefix r.public_path (ground (arith, u)))
      (validate_path-IsPublicPath (text "public_prefix") r.public_prefix (ground (arith, u)))
      (validate_path-IsPublicPath (text "public_path") r.public_path (ground (arith, u)))

module _ (parse : UrlParser) where
  url_target :
      (field raw a b : Text)
      → validate_url_target parse field raw (a ∷ b ∷ []) ≡ ok tt
      → (u : Url) × (parse raw ≡ some u)
        × ((u.scheme ≡ a) ⊎ (u.scheme ≡ b))
        × (u.host ≢ [])
        × (u.has_user ≡ false)
  unfolding validate_url_target
  url_target field raw a b h = elim (Option-cases (parse raw)) [
    | inl e ↦ absurd (ground (arith, e, h))
    | inr (u, e) ↦ (
      u,
      e,
      one_of_two u.scheme a b (ground (arith, e, h)),
      (is_empty_iff u.host).0 (ground (arith, e, h)),
      ground (arith, e, h),
    )
  ]

  subst_mode :
      (m n raw : Text)
      → m ≡ n
      → validate_route_target parse (text "target") m raw ≡ ok tt
      → validate_route_target parse (text "target") n raw ≡ ok tt
  subst_mode m n raw e k = ap (λ x. validate_route_target parse (text "target") x raw) (sym e) ∙ k

  target-HasTarget :
      (r : Shape.Route)
      → valid_mode r.mode ≡ true
      → validate_route_target parse (text "target") r.mode r.target ≡ ok tt
      → HasTarget parse r
  unfolding validate_route_target text_eq
  target-HasTarget r known h = elim (mode_split r.mode known) [
    | inl (inl m) ↦
        let (u, e, s, host, user) =
          url_target (text "target") r.target (text "http") (text "https")
            (subst_mode r.mode _ r.target m h) in
        at_url u e (inl (m, s)) host user
    | inl (inr m) ↦
        let (u, e, s, host, user) =
          url_target (text "target") r.target (text "ws") (text "wss")
            (subst_mode r.mode _ r.target m h) in
        at_url u e (inr (m, s)) host user
    | inr (inl m) ↦
        at_address (inl m)
          (validate_host_port-IsAddress (text "target") r.target (subst_mode r.mode _ r.target m h))
    | inr (inr m) ↦
        at_address (inr m)
          (validate_host_port-IsAddress (text "target") r.target (subst_mode r.mode _ r.target m h))
  ]

  public-HasPublicSide :
      (r : Shape.Route) (i : ℕ)
      → valid_mode r.mode ≡ true
      → validate_route_public_fields i r ≡ ok tt
      → HasPublicSide r
  unfolding validate_route_public_fields
  public-HasPublicSide r i known h = elim (mode_split r.mode known) [
    | inl m ↦
        let url : validate_public_url i r ≡ ok tt =
          ground (arith, h, m, text_eq_iff r.mode mode_http, text_eq_iff r.mode mode_websocket) in
        url_side i r m url
    | inr m ↦
        let address : validate_host_port (text "listen") r.listen ≡ ok tt =
          let (a, b, c) = bytes_mode r.mode m in ground (arith, h, a, b, c) in
        at_listener m (validate_host_port-IsAddress (text "listen") r.listen address)
  ]

  pub check_routes-IsReachable :
      (with_edge : Bool) (i : ℕ) (seen : List Text) (rs : List Shape.Route)
      → check_routes parse with_edge i seen rs ≡ ok tt
      → All (λ r. IsReachable parse r) rs
  unfolding check_routes route_validate
  check_routes-IsReachable with_edge i seen [] h = tt
  check_routes-IsReachable with_edge i seen (r ∷ rs) h =
      let known : valid_mode r.mode ≡ true = ground (arith, h) in
      let t : validate_route_target parse (text "target") r.mode r.target ≡ ok tt =
        ground (arith, h) in
      let p : validate_route_public_fields i r ≡ ok tt = ground (arith, h) in
      (
        (target-HasTarget r known t, public-HasPublicSide r i known p),
        check_routes-IsReachable with_edge (suc i) (r.name ∷ seen) rs (ground (arith, h)),
      )
