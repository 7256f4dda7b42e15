-- ===== src/Edge/Listeners.antt =====
-- The listeners of a started edge (internal/edge/edge.go) and their TLS settings.
use airpc.Prelude.{
  ℕ, suc, ◌≡◌, inl, inr, refl, sym, ◌∙◌, ap, subst, List, [], ◌∷◌, ◌++◌, append-nil, Option, none,
  some, Text, Result, ok, err, All, All-append, if◌then◌else◌, arith, Result-cases,
}
use airpc.Config.Shape
use airpc.Config.Shape.{Config, TlsServerConfig, edge_url_or_default}
use airpc.Config.Tls.{Files, TlsConfig, server_tls, data_tls}
use airpc.Edge.{tcp_routes}
use airpc.Edge.Server.{
  Resource, nats_connection, public_listener, data_listener, route_listener, Outside, Listener,
  Server, listen_routes, make_server, set_tls, listen_data, listen_public, start_metrics,
  behind_metrics, start,
}

-- The settings of the public listener and of that of the tunnels, for those of the configuration.
pub data Settings (f : Files) (o : Option TlsServerConfig) (p d : Option TlsConfig) : Type 0 where
  plain : o ≡ none → p ≡ none → d ≡ none → Settings f o p d
  secured :
      (t : TlsServerConfig) (a b : TlsConfig)
      → o ≡ some t
      → server_tls f t ≡ ok a
      → p ≡ some a
      → data_tls f t ≡ ok b
      → d ≡ some b
      → Settings f o p d

-- A route and its listener: with TLS exactly if the route wants it, and then as the public listener.
abbrev pub IsServed : Option TlsConfig → Shape.Route × Listener → Type 0
IsServed p (r, l) = l.tls ≡ (if r.tls then p else none)

-- The routes of some listeners.
abbrev pub listened : List (Shape.Route × Listener) → List Shape.Route
listened [] = []
listened ((r, l) ∷ ls) = r ∷ listened ls

pub listened-last :
    (ls : List (Shape.Route × Listener)) (r : Shape.Route) (l : Listener) (rs : List Shape.Route)
    → listened (ls ++ (r, l) ∷ []) ++ rs ≡ listened ls ++ (r ∷ rs)
listened-last [] r l rs = refl
listened-last ((q, k) ∷ ls) r l rs = ap (◌∷◌ q) (listened-last ls r l rs)

module _ (w : Outside) (c : Config) where
  pub record IsListening (p d : Option TlsConfig) (s : Server) : Type 0 where
    public_is : s.public.tls ≡ p
    tunnels_is : s.tunnels.tls ≡ d
    served : All (IsServed p) s.tcp_listen

  pub listen_routes-IsListening :
      (p d : Option TlsConfig) (s t : Server) (n : ℕ) (rs : List Shape.Route) (held : List Resource)
      → IsListening p d s
      → (listen_routes w c p s n rs held).0 ≡ ok t
      → IsListening p d t × (listened t.tcp_listen ≡ listened s.tcp_listen ++ rs)
  unfolding listen_routes
  listen_routes-IsListening p d s t n [] held v h =
      let same : s ≡ t = ground arith in
      subst (λ x. IsListening p d x × (listened x.tcp_listen ≡ listened s.tcp_listen ++ [])) same
        (v, sym (append-nil (listened s.tcp_listen)))
  listen_routes-IsListening p d s t n (r ∷ rs) held v h =
      elim (Result-cases (w.listen held r.listen)) [
        | inr (x, f) ↦ absurd (ground (arith, f, h))
        | inl (address, f) ↦
            let l : Listener = record { address = address; tls = if r.tls then p else none } in
            let s' : Server = record s { tcp_listen = s.tcp_listen ++ (r, l) ∷ [] } in
            let v' : IsListening p d s' = record {
              public_is = v.public_is;
              tunnels_is = v.tunnels_is;
              served = All-append (IsServed p) s.tcp_listen _ v.served (refl, tt);
            } in
            let ih =
              listen_routes-IsListening p d s' t (suc n) rs (route_listener n ∷ held) v'
                (ground (arith, f, h)) in
            (ih.0, ih.1 ∙ listened-last s.tcp_listen r l rs)
      ]

  -- What a start that succeeds has come through.
  pub record Passed (s : Server) : Type 0 where
    metrics : Text
    public : Text
    tunnels : Text
    held : List Resource
    last_part : (set_tls w c c.edge.tls metrics public tunnels held).0 ≡ ok s

  pub listen_public-Passed :
      (m : Text) (held : List Resource) (s : Server)
      → (listen_public w c m held).0 ≡ ok s
      → Passed s
  unfolding listen_public listen_data
  listen_public-Passed m held s h = elim (Result-cases (w.listen held c.edge.http_addr)) [
    | inr (x, f) ↦ absurd (ground (arith, f, h))
    | inl (p, f) ↦ elim (Result-cases (w.listen (public_listener ∷ held) c.edge.data_addr)) [
      | inr (x, g) ↦ absurd (ground (arith, f, g, h))
      | inl (t, g) ↦ record {
        metrics = m;
        public = p;
        tunnels = t;
        held = data_listener ∷ public_listener ∷ held;
        last_part = ground (arith, f, g, h);
      }
    ]
  ]

  pub behind_metrics-Passed :
      (r : Result Text Text) (held : List Resource) (s : Server)
      → (behind_metrics w c (r, held)).0 ≡ ok s
      → Passed s
  unfolding behind_metrics
  behind_metrics-Passed (err e) held s h = absurd (ground arith)
  behind_metrics-Passed (ok m) held s h = listen_public-Passed m held s h

  pub start-Passed : (s : Server) → (start w c).0 ≡ ok s → Passed s
  unfolding start
  start-Passed s h =
      elim (Result-cases (w.connect (edge_url_or_default c.nats) c.nats.creds_file)) [
        | inr (x, f) ↦ absurd (ground (arith, f, h))
        | inl (u, f) ↦
            behind_metrics-Passed (start_metrics w c (nats_connection ∷ [])).0
              (start_metrics w c (nats_connection ∷ [])).1 s (ground (arith, f, h))
      ]

  -- The settings of a server, and its routes.
  pub record IsEncrypted (s : Server) : Type 0 where
    pub settings : Settings w.files c.edge.tls s.public.tls s.tunnels.tls
    pub routes : listened s.tcp_listen ≡ tcp_routes c.routes
    pub served : All (IsServed s.public.tls) s.tcp_listen

  pub encrypted :
      (p d : Option TlsConfig) (m a t : Text) (held : List Resource) (s : Server)
      → Settings w.files c.edge.tls p d
      → (listen_routes w c p (make_server w c m a t p d) 0 (tcp_routes c.routes) held).0 ≡ ok s
      → IsEncrypted s
  unfolding make_server
  encrypted p d m a t held s v h =
      let (l, routes) =
        listen_routes-IsListening p d (make_server w c m a t p d) s 0 (tcp_routes c.routes) held
          (record { public_is = refl; tunnels_is = refl; served = tt }) h in
      record {
        settings =
            let k : Settings w.files c.edge.tls p s.tunnels.tls =
              subst (λ x. Settings w.files c.edge.tls p x) (sym l.tunnels_is) v in
            subst (λ x. Settings w.files c.edge.tls x s.tunnels.tls) (sym l.public_is) k;
        routes = routes;
        served = subst (λ x. All (IsServed x) s.tcp_listen) (sym l.public_is) l.served;
      }

  pub passed-IsEncrypted :
      (o : Option TlsServerConfig) (m a t : Text) (held : List Resource) (s : Server)
      → c.edge.tls ≡ o
      → (set_tls w c o m a t held).0 ≡ ok s
      → IsEncrypted s
  unfolding set_tls
  passed-IsEncrypted none m a t held s e h = encrypted none none m a t held s (plain e refl refl) h
  passed-IsEncrypted (some k) m a t held s e h = elim (Result-cases (server_tls w.files k)) [
    | inr (x, f) ↦ absurd (ground (arith, f, h))
    | inl (p, f) ↦ elim (Result-cases (data_tls w.files k)) [
      | inr (x, g) ↦ absurd (ground (arith, f, g, h))
      | inl (d, g) ↦
          encrypted (some p) (some d) m a t held s (secured k p d e f refl g refl)
            (ground (arith, f, g, h))
    ]
  ]

  -- A server that has started has its listeners encrypted as the configuration says: with no TLS there, no
  -- listener speaks it; with it, the public listener and that of the tunnels do, with the settings that the
  -- files give, and so does exactly each TCP route that wants it. There is a listener for each TCP and gRPC
  -- route, in the order of the configuration.
  pub start-IsEncrypted : (s : Server) → (start w c).0 ≡ ok s → IsEncrypted s
  start-IsEncrypted s h =
      let v = start-Passed s h in
      passed-IsEncrypted c.edge.tls v.metrics v.public v.tunnels v.held s refl v.last_part
