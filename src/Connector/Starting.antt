-- ===== src/Connector/Starting.antt =====
-- `Start` of internal/connector/connector.go with `startTunnelClient` and `dial` of
-- internal/connector/data.go: what a connector holds, which subjects it serves, and how it dials.
use airpc.Prelude.{
  Bool, true, false, List, [], ◌∷◌, ◌++◌, Option, none, some, Text, text, text_eq, is_empty, Result,
  ok, err, if◌then◌else◌,
}
use airpc.Url.{Url, UrlParser}
use airpc.Config.Shape
use airpc.Config.Shape.{Config, TlsClientConfig, connector_url_or_default}
use airpc.Config.Tokens.{unary_subject, open_subject, queue_group, cancel_subject_prefix}
use airpc.Config.Tls.{Files, TlsError, TlsConfig, client_tls}
use airpc.Connector.{StreamRoute, ProxyRoute, RouteError, http_routes, stream_routes}

-- A subject, and the queue group in which it is served, if in one.
pub record Subscription : Type 0 where
  pub subject : Text
  pub queue : Option Text

-- `tunnelClient`, as it dials: the URL of the configuration, to which the dial adds the id.
pub record TunnelClient : Type 0 where
  pub id : Text
  pub target : Url
  pub token : Text
  pub tls : Option TlsConfig

-- What a connector holds: whether it is connected to NATS, and its subscriptions. The listener of the
-- metrics and the tunnel client live as long as the context.
pub record Holding : Type 0 where
  pub connected : Bool
  pub subscriptions : List Subscription
  pub metrics : Bool
  pub tunnel : Option TunnelClient

abbrev pub nothing_held : Holding
nothing_held = record { connected = false; subscriptions = []; metrics = false; tunnel = none }

-- What lies outside: `url.Parse`, the dial of NATS with a URL, a name and credentials, `net.Listen` for
-- the metrics, the files of TLS, and whether NATS takes a subscription beside those that it has.
pub record Outside : Type 0 where
  pub parse : UrlParser
  pub connect : Text → Text → Text → Result Text (Unit {0})
  pub listen : Text → Result Text (Unit {0})
  pub files : Files
  pub subscribe : List Subscription → Subscription → Result Text (Unit {0})

pub data StartError : Type 0 where
  bad_route : RouteError → StartError
  nats_failed metrics_failed bad_tunnel_url subscribe_failed : Text → StartError
  tls_failed : TlsError → StartError

abbrev pub Started : Type 0
Started = Result StartError (Unit {0}) × Holding

-- `cleanup`: every subscription is given up, then the connection.
abbrev pub cleanup : Holding → Holding
cleanup h = record h { connected = false; subscriptions = [] }

abbrev pub unary_subscription : Shape.Route → Subscription
unary_subscription r = record { subject = unary_subject r.name; queue = some (queue_group r.name) }

abbrev pub open_subscription : Shape.Route → Subscription
open_subscription r = record { subject = open_subject r.name; queue = some (queue_group r.name) }

-- `CancelSubjectWildcard`
abbrev pub cancel_subject_wildcard : Text
cancel_subject_wildcard = cancel_subject_prefix ++ text ">"

abbrev pub cancel_subscription : Subscription
cancel_subscription = record { subject = cancel_subject_wildcard; queue = none }

abbrev pub unary_subscriptions : List ProxyRoute → List Subscription
unary_subscriptions [] = []
unary_subscriptions (r ∷ rs) = unary_subscription r.cfg ∷ unary_subscriptions rs

abbrev pub open_subscriptions : List (Text × StreamRoute) → List Subscription
open_subscriptions [] = []
open_subscriptions ((name, r) ∷ rs) = open_subscription r.cfg ∷ open_subscriptions rs

-- `if len(routes) > 0`
abbrev pub cancel_subscriptions : List ProxyRoute → List Subscription
cancel_subscriptions [] = []
cancel_subscriptions (r ∷ rs) = cancel_subscription ∷ []

-- The subscriptions of the three parts of `Start`, in its order.
unfoldable pub wanted : List ProxyRoute → List (Text × StreamRoute) → List Subscription
wanted routes streams =
    unary_subscriptions routes ++ (cancel_subscriptions routes ++ open_subscriptions streams)

module _ (w : Outside) where
  unfoldable pub subscribe_all : List Subscription → Holding → Started
  subscribe_all [] h = (ok tt, h)
  subscribe_all (s ∷ ss) h = elim (w.subscribe h.subscriptions s) [
    | err e ↦ (err (subscribe_failed e), cleanup h)
    | ok u ↦ subscribe_all ss (record h { subscriptions = h.subscriptions ++ s ∷ [] })
  ]

  unfoldable pub tunnel_tls : Option TlsClientConfig → Result TlsError (Option TlsConfig)
  tunnel_tls none = ok none
  tunnel_tls (some t) = elim (client_tls w.files t) [ ok c ↦ ok (some c) | err e ↦ err e ]

  -- `startTunnelClient`; its first dial may fail, which does not fail the start.
  unfoldable pub start_tunnel_client : Config → Text → Result StartError TunnelClient
  unfolding tunnel_tls
  start_tunnel_client c id = elim (w.parse c.connector.edge_data_url) [
    | none ↦ err (bad_tunnel_url c.connector.edge_data_url)
    | some u ↦ elim (tunnel_tls c.connector.tls) [
      | err e ↦ err (tls_failed e)
      | ok tls ↦ ok (record { id = id; target = u; token = c.connector.tunnel_token; tls = tls })
    ]
  ]

  -- From the tunnel client on.
  unfoldable pub behind_metrics :
      Config → Text → List ProxyRoute → List (Text × StreamRoute) → Holding → Started
  unfolding start_tunnel_client subscribe_all wanted
  behind_metrics c id routes streams h = elim (start_tunnel_client c id) [
    | err e ↦ (err e, cleanup h)
    | ok t ↦ subscribe_all (wanted routes streams) (record h { tunnel = some t })
  ]

  -- `telemetry.StartServer`
  unfoldable pub start_metrics : Config → Holding → Result Text Holding
  start_metrics c h =
      if is_empty c.connector.metrics_addr then ok h else elim (w.listen c.connector.metrics_addr) [
        | err e ↦ err e
        | ok u ↦ ok (record h { metrics = true })
      ]

  unfoldable pub behind_connect :
      Config → Text → List ProxyRoute → List (Text × StreamRoute) → Holding → Started
  unfolding start_metrics behind_metrics
  behind_connect c id routes streams h = elim (start_metrics c h) [
    | err e ↦ (err (metrics_failed e), cleanup h)
    | ok h' ↦ behind_metrics c id routes streams h'
  ]

  unfoldable pub start_connector : Config → Text → Started
  unfolding behind_connect
  start_connector c id = elim (http_routes w.parse c.routes) [
    | err e ↦ (err (bad_route e), nothing_held)
    | ok routes ↦ elim (stream_routes w.parse c.routes) [
      | err e ↦ (err (bad_route e), nothing_held)
      | ok streams ↦
          elim (w.connect (connector_url_or_default c.nats) (text "airpc-connector-" ++ id)
            c.nats.creds_file) [
              | err e ↦ (err (nats_failed e), nothing_held)
              | ok u ↦ behind_connect c id routes streams (record nothing_held { connected = true })
            ]
    ]
  ]

-- The request of `dial`, as the edge reads it: the id is set in the query of the URL, whose other keys
-- are as they were.
pub record Dialled : Type 0 where
  pub path : Text
  pub query : Text → Text
  pub authorization : Text

unfoldable pub dial_request : (Text → Text) → TunnelClient → Dialled
dial_request query t = record {
  path = t.target.path;
  query = λ k. if text_eq k (text "connector_id") then t.id else query k;
  authorization = if is_empty t.token then [] else text "Bearer " ++ t.token;
}

-- What goes on when the context ends: subscriptions and connection are given up.
unfoldable pub stop_connector : Holding → Holding
stop_connector h = cleanup h
