-- ===== src/Config/Names.antt =====
-- What an accepted configuration of internal/config/config.go promises of its routes.
use airpc.Prelude.{
  ℕ, suc, ◌≡◌, ◌≢◌, ◌⊎◌, refl, sym, Bool, true, false, List, [], ◌∷◌, Text, text, text_eq_iff, ℤ,
  pos, negsuc, ltb_ℤ, All, ok, arith,
}
use airpc.Url.{UrlParser}
use airpc.Config.Tokens.{mode_tcp, mode_grpc, valid_mode}
use airpc.Config.Subjects.{
  IsSubjectToken, validate_subject_token_iff, valid_header_name-valid_token,
}
use airpc.Config.Shape
use airpc.Config.Shape.{Config}
use airpc.Config.Checks.{
  check_headers, route_validate, check_route_tls, has_name, check_routes, edge_tls, is_nil,
  config_validate,
}
use airpc.Unary
use airpc.Unary.Requests.{IsHttpToken, valid_token_iff, is_empty_iff}

-- A size or a duration that is not negative.
abbrev pub IsNat : ℤ → Type 0
IsNat z = (n : ℕ) × (z ≡ pos n)

-- TLS on the listener of a route needs the edge's certificate and a route with its own listener.
abbrev pub MayUseTls : Bool → Shape.Route → Type 0
MayUseTls with_edge r =
    (r.tls ≡ false) ⊎ ((with_edge ≡ true) × ((r.mode ≡ mode_tcp) ⊎ (r.mode ≡ mode_grpc)))

pub record IsUsable (with_edge : Bool) (r : Shape.Route) : Type 0 where
  pub name_token : IsSubjectToken r.name
  pub mode_known : valid_mode r.mode ≡ true
  pub target_given : r.target ≢ []
  pub request_limit : IsNat r.max_inline_request_bytes × IsNat r.max_request_body_bytes
  pub response_limit : IsNat r.max_inline_response_bytes × IsNat r.max_response_body_bytes
  pub timeout : IsNat r.timeout
  pub idle_timeout : IsNat r.idle_timeout
  pub headers : All (λ h. IsHttpToken h) r.forwarded_headers
  pub tls_allowed : MayUseTls with_edge r

sign-IsNat : (z : ℤ) → ltb_ℤ z (pos 0) ≡ false → IsNat z
sign-IsNat (pos n) h = (n, refl)
sign-IsNat (negsuc n) h = absurd (ground arith)

headers_of : (j : ℕ) (hs : List Text) → check_headers j hs ≡ ok tt → All (λ h. IsHttpToken h) hs
unfolding check_headers
headers_of j [] h = tt
headers_of j (x ∷ hs) h =
    let e = valid_header_name-valid_token x in
    let v : Unary.valid_token x ≡ true = ground (arith, h, e) in
    ((valid_token_iff x).0 v, headers_of (suc j) hs (ground (arith, h)))

tls_of :
    (with_edge : Bool) (i : ℕ) (r : Shape.Route)
    → check_route_tls with_edge i r ≡ ok tt
    → MayUseTls with_edge r
unfolding check_route_tls
tls_of with_edge i r h =
    ground (arith, h, text_eq_iff r.mode mode_tcp, text_eq_iff r.mode mode_grpc)

-- No route has the name of an earlier one.
abbrev pub Distinct : List Shape.Route → Type 0
Distinct [] = Unit {0}
Distinct (r ∷ rs) = All (λ q. q.name ≢ r.name) rs × Distinct rs

older :
    (r : Shape.Route) (seen : List Text) (rs : List Shape.Route)
    → All (λ q. has_name q.name (r.name ∷ seen) ≡ false) rs
    → All (λ q. has_name q.name seen ≡ false) rs
unfolding has_name
older r seen [] h = tt
older r seen (q ∷ rs) h = (ground (arith, h.0), older r seen rs h.1)

newer :
    (r : Shape.Route) (seen : List Text) (rs : List Shape.Route)
    → All (λ q. has_name q.name (r.name ∷ seen) ≡ false) rs
    → All (λ q. q.name ≢ r.name) rs
unfolding has_name
newer r seen [] h = tt
newer r seen (q ∷ rs) h =
    (λ e. absurd (ground (arith, h.0, text_eq_iff r.name q.name, sym e)), newer r seen rs h.1)

no_nil : (rs : List Shape.Route) → is_nil rs ≡ false → rs ≢ []
no_nil [] h e = absurd (ground arith)
no_nil (r ∷ rs) h e = cc

module _ (parse : UrlParser) where
  route-IsUsable :
      (with_edge : Bool) (i : ℕ) (r : Shape.Route)
      → route_validate parse i r ≡ ok tt
      → check_route_tls with_edge i r ≡ ok tt
      → IsUsable with_edge r
  unfolding route_validate
  route-IsUsable with_edge i r h t = record {
    name_token = (validate_subject_token_iff (text "name") r.name).0 (ground arith);
    mode_known = ground arith;
    target_given = (is_empty_iff r.target).0 (ground arith);
    request_limit = (
      sign-IsNat r.max_inline_request_bytes (ground arith),
      sign-IsNat r.max_request_body_bytes (ground arith),
    );
    response_limit = (
      sign-IsNat r.max_inline_response_bytes (ground arith),
      sign-IsNat r.max_response_body_bytes (ground arith),
    );
    timeout = sign-IsNat r.timeout (ground arith);
    idle_timeout = sign-IsNat r.idle_timeout (ground arith);
    headers = headers_of 0 r.forwarded_headers (ground arith);
    tls_allowed = tls_of with_edge i r t;
  }

  -- No earlier name, and none twice.
  check_routes_sound :
      (with_edge : Bool) (i : ℕ) (seen : List Text) (rs : List Shape.Route)
      → check_routes parse with_edge i seen rs ≡ ok tt
      → All (λ r. has_name r.name seen ≡ false) rs
        × Distinct rs
        × All (λ r. IsUsable with_edge r) rs
  unfolding check_routes has_name
  check_routes_sound with_edge i seen [] h = (tt, tt, tt)
  check_routes_sound with_edge i seen (r ∷ rs) h =
      let v : route_validate parse i r ≡ ok tt = ground (arith, h) in
      let t : check_route_tls with_edge i r ≡ ok tt = ground (arith, h) in
      let n : has_name r.name seen ≡ false = ground (arith, h) in
      let (fresh, distinct, usable) =
        check_routes_sound with_edge (suc i) (r.name ∷ seen) rs (ground (arith, h)) in
      (
        (n, older r seen rs fresh),
        (newer r seen rs fresh, distinct),
        (route-IsUsable with_edge i r v t, usable),
      )

  -- An accepted configuration has routes, all of them usable, and no two with the same name.
  pub config_validate-IsUsable :
      (c : Config)
      → config_validate parse c ≡ ok tt
      → (c.routes ≢ []) × Distinct c.routes × All (λ r. IsUsable (edge_tls c.edge.tls) r) c.routes
  unfolding config_validate
  config_validate-IsUsable c h =
      let (fresh, distinct, usable) =
        check_routes_sound (edge_tls c.edge.tls) 0 [] c.routes (ground (arith, h)) in
      (no_nil c.routes (ground (arith, h)), distinct, usable)
