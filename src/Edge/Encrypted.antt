-- ===== src/Edge/Encrypted.antt =====
-- Which listeners of internal/edge/edge.go speak TLS, and with which settings.
use airpc.Prelude.{
  ◌≡◌, inl, inr, sym, subst, true, List, [], ◌∷◌, Option, some, text_eq, ◌||◌, ok, All, arith,
  Bool-cases,
}
use airpc.Url.{UrlParser}
use airpc.Config.Shape
use airpc.Config.Shape.{Config, TlsServerConfig, edge_url_or_default}
use airpc.Config.Checks.{config_validate, edge_tls}
use airpc.Config.Names.{IsUsable, config_validate-IsUsable}
use airpc.Config.Tls.{Files, TlsConfig, server_tls}
use airpc.Config.Tokens.{mode_tcp, mode_grpc}
use airpc.Edge.{tcp_routes}
use airpc.Edge.Server.{Outside, Listener, Server, start}
use airpc.Edge.Listeners.{Settings, IsServed, listened, start-IsEncrypted, plain, secured}

-- A route that wants TLS has it.
abbrev pub HasTls : Files → Option TlsServerConfig → Shape.Route × Listener → Type 0
HasTls f o (r, l) =
    r.tls ≡ true
    → (t : TlsServerConfig) × (a : TlsConfig) × (o ≡ some t)
      × (server_tls f t ≡ ok a)
      × (l.tls ≡ some a)

module _ {ℓ} (P : Shape.Route → Type ℓ) where
  All-tcp_routes : (rs : List Shape.Route) → All P rs → All P (tcp_routes rs)
  unfolding tcp_routes
  All-tcp_routes [] h = tt
  All-tcp_routes (r ∷ rs) h =
      elim (Bool-cases (text_eq r.mode mode_tcp || text_eq r.mode mode_grpc)) [
        | inl e ↦ rw (e, tcp_routes) (h.0, All-tcp_routes rs h.1)
        | inr e ↦ rw (e, tcp_routes) (All-tcp_routes rs h.1)
      ]

  All-listened : (ls : List (Shape.Route × Listener)) → All P (listened ls) → All (λ x. P x.0) ls
  All-listened [] h = tt
  All-listened ((r, l) ∷ ls) h = (h.0, All-listened ls h.1)

one-HasTls :
    (f : Files) (o : Option TlsServerConfig) (p d : Option TlsConfig) (r : Shape.Route)
    (l : Listener)
    → Settings f o p d
    → IsUsable (edge_tls o) r
    → IsServed p (r, l)
    → HasTls f o (r, l)
one-HasTls f o p d r l (plain none_set e g) u s wants = elim u.tls_allowed [
  | inl off ↦ absurd (ground arith)
  | inr (on, modes) ↦ absurd (ground (arith, on))
]
one-HasTls f o p d r l (secured t a b e g k h j) u s wants = (t, a, e, g, ground arith)

all-HasTls :
    (f : Files) (o : Option TlsServerConfig) (p d : Option TlsConfig)
    (ls : List (Shape.Route × Listener))
    → Settings f o p d
    → All (λ x. IsUsable (edge_tls o) x.0) ls
    → All (IsServed p) ls
    → All (HasTls f o) ls
all-HasTls f o p d [] v u s = tt
all-HasTls f o p d ((r, l) ∷ ls) v u s =
    (one-HasTls f o p d r l v u.0 s.0, all-HasTls f o p d ls v u.1 s.1)

-- On a configuration that has been accepted, every listener of a route that wants TLS has the settings of
-- the edge, made from the key pair of the configuration: none is left with settings that are missing.
pub start-HasTls :
    (parse : UrlParser) (w : Outside) (c : Config) (s : Server)
    → config_validate parse c ≡ ok tt
    → (start w c).0 ≡ ok s
    → All (HasTls w.files c.edge.tls) s.tcp_listen
start-HasTls parse w c s valid h =
    let v = start-IsEncrypted w c s h in
    let (some_routes, distinct, usable) = config_validate-IsUsable parse c valid in
    let P = λ (r : Shape.Route). IsUsable (edge_tls c.edge.tls) r in
    let listening : All P (listened s.tcp_listen) =
      subst (λ l. All P l) (sym v.routes) (All-tcp_routes P c.routes usable) in
    all-HasTls w.files c.edge.tls s.public.tls s.tunnels.tls s.tcp_listen v.settings
      (All-listened P s.tcp_listen listening) v.served
