-- ===== src/Edge/Server.antt =====
-- `Start`, `serveHTTP` and the shutdown of internal/edge/edge.go, with `StartServer` of
-- internal/telemetry/metrics.go: what the edge holds open at each point.
use airpc.Prelude.{
  ℕ, zero, suc, Bool, true, false, List, [], ◌∷◌, ◌++◌, Option, none, some, Text, is_empty, ◌==◌,
  Result, ok, err, if◌then◌else◌,
}
use airpc.Config.Shape
use airpc.Config.Shape.{Config, TlsServerConfig, edge_url_or_default}
use airpc.Config.Tls.{Files, TlsError, TlsConfig, server_tls, data_tls}
use airpc.Edge.{PublicRoute, http_routes, ws_routes, tcp_routes}

-- What the edge opens: the NATS connection, the listeners of metrics, clients and connectors, and the
-- listener of a TCP route, by its place among them.
pub data Resource : Type 0 where
  nats_connection metrics_listener public_listener data_listener : Resource
  route_listener : ℕ → Resource

unfoldable pub same_resource : Resource → Resource → Bool
same_resource nats_connection nats_connection = true
same_resource metrics_listener metrics_listener = true
same_resource public_listener public_listener = true
same_resource data_listener data_listener = true
same_resource (route_listener i) (route_listener j) = i == j
same_resource _ _ = false

-- `Close` of one of the resources that are open.
unfoldable pub close : Resource → List Resource → List Resource
unfolding same_resource
close r [] = []
close r (x ∷ xs) = let rest = close r xs in if same_resource r x then xs else x ∷ rest

-- What lies outside: the dial of NATS with a URL and credentials, and `net.Listen` on an address, which
-- gives the address that is bound. Both may depend on what is open.
pub record Outside : Type 0 where
  pub connect : Text → Text → Result Text (Unit {0})
  pub listen : List Resource → Text → Result Text Text
  pub files : Files

pub data StartError : Type 0 where
  nats_failed metrics_failed public_failed data_failed : Text → StartError
  tls_failed : TlsError → StartError
  route_failed : Text → Text → StartError

-- A listener with its address, and its TLS settings if it has some.
pub record Listener : Type 0 where
  pub address : Text
  pub tls : Option TlsConfig

pub record Server : Type 0 where
  pub public : Listener
  pub tunnels : Listener
  pub tcp_listen : List (Shape.Route × Listener)
  pub metrics_addr : Text
  pub token : Text
  pub http_table : List PublicRoute
  pub ws_table : List PublicRoute

-- The end of `Start`: its result, and what is open.
abbrev pub Started : Type 0
Started = Result StartError Server × List Resource

-- `closeListeners`, for the listeners of the first `n` routes.
unfoldable pub close_listeners : ℕ → List Resource → List Resource
unfolding close
close_listeners zero held = held
close_listeners (suc n) held = close (route_listener n) (close_listeners n held)

module _ (w : Outside) (c : Config) where
  -- The loop over the routes, with those that listen already; `failed` is what a failure of one leaves.
  unfoldable pub listen_routes :
      Option TlsConfig → Server → ℕ → List Shape.Route → List Resource → Started
  unfolding close_listeners
  listen_routes tls s n [] held = (ok s, held)
  listen_routes tls s n (r ∷ rs) held = elim (w.listen held r.listen) [
    | err e ↦ (
      err (route_failed r.name e),
      close nats_connection (close_listeners n (close data_listener (close public_listener held))),
    )
    | ok address ↦
        let l : Listener = record { address = address; tls = if r.tls then tls else none } in
        listen_routes tls (record s { tcp_listen = s.tcp_listen ++ (r, l) ∷ [] }) (suc n) rs
          (route_listener n ∷ held)
  ]

  -- The server before the loop over the routes.
  unfoldable pub make_server : Text → Text → Text → Option TlsConfig → Option TlsConfig → Server
  make_server metrics public tunnels public_tls tunnel_tls = record {
    public = record { address = public; tls = public_tls };
    tunnels = record { address = tunnels; tls = tunnel_tls };
    tcp_listen = [];
    metrics_addr = metrics;
    token = c.connector.tunnel_token;
    http_table = http_routes c.routes;
    ws_table = ws_routes c.routes;
  }

  abbrev drop_both : List Resource → List Resource
  drop_both held = close nats_connection (close data_listener (close public_listener held))

  -- From the TLS settings on.
  unfoldable pub set_tls : Option TlsServerConfig → Text → Text → Text → List Resource → Started
  unfolding listen_routes make_server close
  set_tls none metrics public tunnels held =
      listen_routes none (make_server metrics public tunnels none none) 0 (tcp_routes c.routes) held
  set_tls (some t) metrics public tunnels held = elim (server_tls w.files t) [
    | err e ↦ (err (tls_failed e), drop_both held)
    | ok p ↦ elim (data_tls w.files t) [
      | err e ↦ (err (tls_failed e), drop_both held)
      | ok d ↦
          listen_routes (some p) (make_server metrics public tunnels (some p) (some d)) 0
            (tcp_routes c.routes) held
    ]
  ]

  unfoldable pub listen_data : Text → Text → List Resource → Started
  unfolding set_tls close
  listen_data metrics public held = elim (w.listen held c.edge.data_addr) [
    | err e ↦ (err (data_failed e), close nats_connection (close public_listener held))
    | ok tunnels ↦ set_tls c.edge.tls metrics public tunnels (data_listener ∷ held)
  ]

  unfoldable pub listen_public : Text → List Resource → Started
  unfolding listen_data close
  listen_public metrics held = elim (w.listen held c.edge.http_addr) [
    | err e ↦ (err (public_failed e), close nats_connection held)
    | ok public ↦ listen_data metrics public (public_listener ∷ held)
  ]

  -- `telemetry.StartServer`: no address, no listener.
  unfoldable pub start_metrics : List Resource → Result Text Text × List Resource
  start_metrics held =
      if is_empty c.edge.metrics_addr
      then (ok [], held)
      else elim (w.listen held c.edge.metrics_addr) [
        | err e ↦ (err e, held)
        | ok address ↦ (ok address, metrics_listener ∷ held)
      ]

  unfoldable pub behind_metrics : Result Text Text × List Resource → Started
  unfolding listen_public close
  behind_metrics (err e, held) = (err (metrics_failed e), close nats_connection held)
  behind_metrics (ok address, held) = listen_public address held

  unfoldable pub start : Started
  unfolding start_metrics behind_metrics
  start = elim (w.connect (edge_url_or_default c.nats) c.nats.creds_file) [
    | err e ↦ (err (nats_failed e), [])
    | ok u ↦ behind_metrics (start_metrics (nats_connection ∷ []))
  ]

-- How `server.Serve` ends.
pub data ServeEnd : Type 0 where
  server_closed net_closed : ServeEnd
  serve_failed : Text → ServeEnd

-- `serveHTTP`: a shutdown is no error.
unfoldable pub serve_http_end : ServeEnd → Option Text
serve_http_end server_closed = none
serve_http_end net_closed = none
serve_http_end (serve_failed e) = some e

-- What ends the server: the context, or the first listener whose serving ends.
pub data StopCause : Type 0 where
  context_done : StopCause
  served : ServeEnd → StopCause

-- The goroutine that shuts a server down: the error that `Wait` returns, and what stays open. The
-- shutdown of an HTTP server closes its listener.
unfoldable pub shut_down : StopCause → ℕ → List Resource → Option Text × List Resource
unfolding serve_http_end close_listeners close
shut_down cause n held = (
  elim cause [ context_done ↦ none | served e ↦ serve_http_end e ],
  close nats_connection (close_listeners n (close data_listener (close public_listener held))),
)

-- `Server.Close`, for a server of `n` TCP routes.
unfoldable pub close_server : ℕ → List Resource → List Resource
unfolding close_listeners close
close_server n held = close public_listener (close data_listener (close_listeners n held))
