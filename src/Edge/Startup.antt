-- ===== src/Edge/Startup.antt =====
-- The start and the shutdown of the edge (internal/edge/edge.go): nothing is left open.
use airpc.Prelude.{
  ℕ, suc, ◌+◌, ◌≡◌, inl, inr, refl, sym, subst, Bool, true, false, not, List, [], ◌∷◌, ◌++◌, Option,
  none, some, Text, is_empty, length, ok, err, if◌then◌else◌, arith, Bool-cases, Result-cases,
}
use airpc.Config.Shape
use airpc.Config.Shape.{Config, TlsServerConfig, edge_url_or_default}
use airpc.Config.Tls.{TlsConfig, server_tls, data_tls}
use airpc.Edge.{tcp_routes}
use airpc.Edge.Server.{
  Resource, nats_connection, metrics_listener, public_listener, data_listener, same_resource, close,
  Outside, StartError, Listener, Server, Started, route_failed, tls_failed, data_failed,
  public_failed, nats_failed, metrics_failed, listen_routes, make_server, set_tls, listen_data,
  listen_public, start_metrics, behind_metrics, start, StopCause, shut_down,
}
use airpc.Edge.Closing.{left, base, all_open, close_all, OnlyMetrics, left-OnlyMetrics}

-- What a start leaves open: all of a server, or, with an error, nothing but the listener of the metrics.
pub record IsClean (n : ℕ) (metrics : Bool) (out : Started) : Type 0 where
  pub on_error : (e : StartError) → out.0 ≡ err e → OnlyMetrics out.1
  pub on_success : (s : Server) → out.0 ≡ ok s → out.1 ≡ all_open n metrics

failed :
    (n : ℕ) (metrics : Bool) (e : StartError) (held : List Resource)
    → OnlyMetrics held
    → IsClean n metrics (err e, held)
failed n metrics e held h = record {
  on_error = λ e' k. h;
  on_success = λ s k. absurd (ground (arith, k));
}

module _ (w : Outside) (c : Config) where
  listen_routes-IsClean :
      (tls : Option TlsConfig) (s : Server) (n total : ℕ) (rs : List Shape.Route) (metrics : Bool)
      → n + length rs ≡ total
      → IsClean total metrics (listen_routes w c tls s n rs (all_open n metrics))
  unfolding listen_routes
  listen_routes-IsClean tls s n total [] metrics e =
      let same : n ≡ total = omega arith in
      record { on_error = λ x k. absurd (ground (arith, k)); on_success = λ s' k. rw same refl }
  listen_routes-IsClean tls s n total (r ∷ rs) metrics e =
      elim (Result-cases (w.listen (all_open n metrics) r.listen)) [
        | inr (x, f) ↦
            rw (f, listen_routes)
              (failed total metrics (route_failed r.name x) _
                (subst (λ l. OnlyMetrics l) (sym (close_all n metrics)) (left-OnlyMetrics metrics)))
        | inl (address, f) ↦
            let l : Listener = record { address = address; tls = if r.tls then tls else none } in
            let s' : Server = record s { tcp_listen = s.tcp_listen ++ (r, l) ∷ [] } in
            rw (f, listen_routes)
              (listen_routes-IsClean tls s' (suc n) total rs metrics (omega arith))
      ]

  drop_both_lem :
      (metrics : Bool)
      → close nats_connection (
          close data_listener
            (close public_listener (data_listener ∷ public_listener ∷ base metrics)))
        ≡ left metrics
  unfolding close same_resource
  drop_both_lem true = refl
  drop_both_lem false = refl

  dropped :
      (metrics : Bool) (e : StartError)
      → IsClean (length (tcp_routes c.routes)) metrics (
        err e,
        close nats_connection (
            close data_listener
              (close public_listener (data_listener ∷ public_listener ∷ base metrics))),
      )
  dropped metrics e =
      failed _ metrics e _
        (subst (λ l. OnlyMetrics l) (sym (drop_both_lem metrics)) (left-OnlyMetrics metrics))

  set_tls-IsClean :
      (o : Option TlsServerConfig) (m p t : Text) (metrics : Bool)
      → IsClean
          (length (tcp_routes c.routes))
          metrics
          (set_tls w c o m p t (data_listener ∷ public_listener ∷ base metrics))
  unfolding set_tls
  set_tls-IsClean none m p t metrics =
      listen_routes-IsClean none (make_server w c m p t none none) 0 _ (tcp_routes c.routes) metrics
        (omega arith)
  set_tls-IsClean (some k) m p t metrics = elim (Result-cases (server_tls w.files k)) [
    | inr (x, f) ↦ rw (f, set_tls) (dropped metrics (tls_failed x))
    | inl (a, f) ↦ elim (Result-cases (data_tls w.files k)) [
      | inr (x, g) ↦ rw (f, set_tls) (rw g (dropped metrics (tls_failed x)))
      | inl (d, g) ↦
          rw (f, set_tls)
            (rw g (
              listen_routes-IsClean (some a) (make_server w c m p t (some a) (some d)) 0 _
                (tcp_routes c.routes) metrics (omega arith)))
    ]
  ]

  listen_data-IsClean :
      (m p : Text) (metrics : Bool)
      → IsClean
          (length (tcp_routes c.routes))
          metrics
          (listen_data w c m p (public_listener ∷ base metrics))
  unfolding listen_data close same_resource
  listen_data-IsClean m p metrics =
      elim (Result-cases (w.listen (public_listener ∷ base metrics) c.edge.data_addr)) [
        | inr (x, f) ↦
            rw (f, listen_data) (failed _ metrics (data_failed x) _ (close_public metrics))
        | inl (t, f) ↦ rw (f, listen_data) (set_tls-IsClean c.edge.tls m p t metrics)
      ]
    where
      close_public :
          (metrics : Bool)
          → OnlyMetrics
              (close nats_connection (close public_listener (public_listener ∷ base metrics)))
      close_public true = inr refl
      close_public false = inl refl

  listen_public-IsClean :
      (m : Text) (metrics : Bool)
      → IsClean (length (tcp_routes c.routes)) metrics (listen_public w c m (base metrics))
  unfolding listen_public close same_resource
  listen_public-IsClean m metrics = elim (Result-cases (w.listen (base metrics) c.edge.http_addr)) [
    | inr (x, f) ↦ rw (f, listen_public) (failed _ metrics (public_failed x) _ (close_base metrics))
    | inl (p, f) ↦ rw (f, listen_public) (listen_data-IsClean m p metrics)
  ]
    where
      close_base : (metrics : Bool) → OnlyMetrics (close nats_connection (base metrics))
      close_base true = inr refl
      close_base false = inl refl

  -- Are the metrics served?
  abbrev pub with_metrics : Bool
  with_metrics = not (is_empty c.edge.metrics_addr)

  metrics-IsClean :
      IsClean
        (length (tcp_routes c.routes))
        with_metrics
        (behind_metrics w c (start_metrics w c (nats_connection ∷ [])))
  unfolding start_metrics behind_metrics close same_resource
  metrics-IsClean = elim (Bool-cases (is_empty c.edge.metrics_addr)) [
    | inl none_named ↦
        let same : start_metrics w c (nats_connection ∷ []) ≡ (ok [], nats_connection ∷ []) =
          ground arith in
        rw (same, none_named) (listen_public-IsClean [] false)
    | inr named ↦ elim (Result-cases (w.listen (nats_connection ∷ []) c.edge.metrics_addr)) [
      | inr (x, g) ↦
          let same : start_metrics w c (nats_connection ∷ []) ≡ (err x, nats_connection ∷ []) =
            ground arith in
          rw same (failed _ _ (metrics_failed x) [] (inl refl))
      | inl (m, g) ↦
          let same : start_metrics w c (nats_connection ∷ [])
              ≡ (ok m, metrics_listener ∷ nats_connection ∷ []) =
            ground arith in
          rw (same, named) (listen_public-IsClean m true)
    ]
  ]

  -- A start that fails leaves nothing open but the listener of the metrics, which the context closes; one
  -- that succeeds holds the NATS connection, the two listeners, that of the metrics if it has an address,
  -- and a listener for each TCP and gRPC route.
  pub start-IsClean : IsClean (length (tcp_routes c.routes)) with_metrics (start w c)
  unfolding start
  start-IsClean = elim (Result-cases (w.connect (edge_url_or_default c.nats) c.nats.creds_file)) [
    | inr (x, f) ↦ rw (f, start) (failed _ _ (nats_failed x) [] (inl refl))
    | inl (u, f) ↦ rw (f, start) metrics-IsClean
  ]

  -- Whatever stops a server that has started, its shutdown closes all that the start has opened but the
  -- listener of the metrics.
  pub shut_down-start :
      (s : Server) (cause : StopCause)
      → (start w c).0 ≡ ok s
      → (shut_down cause (length (tcp_routes c.routes)) (start w c).1).1 ≡ left with_metrics
  unfolding shut_down
  shut_down-start s cause h =
      let open_ = start-IsClean.on_success s h in
      rw open_ (close_all (length (tcp_routes c.routes)) with_metrics)
