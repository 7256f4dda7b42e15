-- ===== src/Connector/Served.antt =====
-- What a connector holds after `Start` of internal/connector/connector.go, and that it serves every route.
use airpc.Prelude.{
  ◌≡◌, inl, inr, refl, sym, ◌∙◌, ap, subst, true, false, List, [], ◌∷◌, ◌++◌, append_assoc,
  append-nil, some, Text, text, is_empty, ok, err, arith, Bool-cases, Result-cases,
}
use airpc.Config.Shape.{Config, connector_url_or_default}
use airpc.Connector.{StreamRoute, ProxyRoute, http_routes, stream_routes}
use airpc.Connector.Starting.{
  Subscription, TunnelClient, Holding, nothing_held, Outside, StartError, Started, bad_route,
  nats_failed, metrics_failed, wanted, subscribe_all, start_tunnel_client, behind_metrics,
  start_metrics, behind_connect, start_connector,
}

-- Nothing is held in NATS.
pub record IsReleased (h : Holding) : Type 0 where
  pub disconnected : h.connected ≡ false
  pub unsubscribed : h.subscriptions ≡ []

-- The subscriptions of all routes, and the tunnel client of the configuration.
pub record IsServing (w : Outside) (c : Config) (id : Text) (h : Holding) : Type 0 where
  pub routes : List ProxyRoute
  pub streams : List (Text × StreamRoute)
  pub routes_are : http_routes w.parse c.routes ≡ ok routes
  pub streams_are : stream_routes w.parse c.routes ≡ ok streams
  pub connected : h.connected ≡ true
  pub subscribed : h.subscriptions ≡ wanted routes streams
  pub client : TunnelClient
  pub tunnel_is : h.tunnel ≡ some client
  pub client_is : start_tunnel_client w c id ≡ ok client

module _ (w : Outside) where
  subscribe_all_lem :
      (ss : List Subscription) (h : Holding)
      → ((e : StartError) → (subscribe_all w ss h).0 ≡ err e → IsReleased (subscribe_all w ss h).1)
        × ((subscribe_all w ss h).0 ≡ ok tt
            → (subscribe_all w ss h).1 ≡ record h { subscriptions = h.subscriptions ++ ss })
  unfolding subscribe_all
  subscribe_all_lem [] h = (
    λ e k. absurd (ground arith),
    λ k.
        ap (λ (l : List Subscription). record h { subscriptions = l })
          (sym (append-nil h.subscriptions)),
  )
  subscribe_all_lem (s ∷ ss) h = elim (Result-cases (w.subscribe h.subscriptions s)) [
    | inr (x, f) ↦
        rw (f, subscribe_all)
          (λ e k. record { disconnected = refl; unsubscribed = refl }, λ k. absurd (ground arith))
    | inl (u, f) ↦
        let h' : Holding = record h { subscriptions = h.subscriptions ++ s ∷ [] } in
        let ih = subscribe_all_lem ss h' in
        rw (f, subscribe_all)
          (
            ih.0,
            λ k.
                ih.1 k
                ∙ ap (λ (l : List Subscription). record h { subscriptions = l })
                    (append_assoc h.subscriptions (s ∷ []) ss),
          )
  ]

  -- The result of a start: with an error nothing is held in NATS.
  pub record Outcome (c : Config) (id : Text) (out : Started) : Type 0 where
    pub on_error : (e : StartError) → out.0 ≡ err e → IsReleased out.1
    pub on_success : out.0 ≡ ok tt → IsServing w c id out.1

  failed :
      (c : Config) (id : Text) (e : StartError) (h : Holding)
      → IsReleased h
      → Outcome c id (err e, h)
  failed c id e h r = record { on_error = λ x k. r; on_success = λ k. absurd (ground (arith, k)) }

  behind_metrics-Outcome :
      (c : Config) (id : Text) (routes : List ProxyRoute) (streams : List (Text × StreamRoute))
      (h : Holding)
      → http_routes w.parse c.routes ≡ ok routes
      → stream_routes w.parse c.routes ≡ ok streams
      → h.connected ≡ true
      → h.subscriptions ≡ []
      → Outcome c id (behind_metrics w c id routes streams h)
  unfolding behind_metrics
  behind_metrics-Outcome c id routes streams h r s on empty =
      elim (Result-cases (start_tunnel_client w c id)) [
        | inr (x, f) ↦
            rw (f, behind_metrics)
              (failed c id x _ (record { disconnected = refl; unsubscribed = refl }))
        | inl (t, f) ↦
            let h' : Holding = record h { tunnel = some t } in
            let sub = subscribe_all_lem (wanted routes streams) h' in
            rw (f, behind_metrics)
              (record {
                on_error = sub.0;
                on_success = λ k.
                    let held : Holding = record h' {
                      subscriptions = h'.subscriptions ++ wanted routes streams;
                    } in
                    let v : IsServing w c id held = record {
                      routes = routes;
                      streams = streams;
                      routes_are = r;
                      streams_are = s;
                      connected = on;
                      subscribed = ap (λ l. l ++ wanted routes streams) empty;
                      client = t;
                      tunnel_is = refl;
                      client_is = f;
                    } in
                    subst (λ x. IsServing w c id x) (sym (sub.1 k)) v;
              })
      ]

  behind_connect-Outcome :
      (c : Config) (id : Text) (routes : List ProxyRoute) (streams : List (Text × StreamRoute))
      → http_routes w.parse c.routes ≡ ok routes
      → stream_routes w.parse c.routes ≡ ok streams
      → Outcome c id
          (behind_connect w c id routes streams (record nothing_held { connected = true }))
  unfolding behind_connect start_metrics
  behind_connect-Outcome c id routes streams r s =
      let h : Holding = record nothing_held { connected = true } in
      elim (Bool-cases (is_empty c.connector.metrics_addr)) [
        | inl none_named ↦
            let same : start_metrics w c h ≡ ok h = ground arith in
            rw (same, behind_connect) (behind_metrics-Outcome c id routes streams h r s refl refl)
        | inr named ↦ elim (Result-cases (w.listen c.connector.metrics_addr)) [
          | inr (x, f) ↦
              let same : start_metrics w c h ≡ err x = ground arith in
              rw (same, behind_connect)
                (failed c id (metrics_failed x) _
                  (record { disconnected = refl; unsubscribed = refl }))
          | inl (u, f) ↦
              let h' : Holding = record h { metrics = true } in
              let same : start_metrics w c h ≡ ok h' = ground arith in
              rw (same, behind_connect)
                (behind_metrics-Outcome c id routes streams h' r s refl refl)
        ]
      ]

  -- A connector that does not start gives up its connection and all its subscriptions; one that starts is
  -- connected, has the subscriptions of its routes in the order of the code, and no others, and a tunnel
  -- client with the settings of the configuration.
  pub start_connector-Outcome : (c : Config) (id : Text) → Outcome c id (start_connector w c id)
  unfolding start_connector
  start_connector-Outcome c id = elim (Result-cases (http_routes w.parse c.routes)) [
    | inr (x, f) ↦
        rw (f, start_connector)
          (failed c id (bad_route x) _ (record { disconnected = refl; unsubscribed = refl }))
    | inl (routes, f) ↦ elim (Result-cases (stream_routes w.parse c.routes)) [
      | inr (x, g) ↦
          rw (f, start_connector)
            (rw g
              (failed c id (bad_route x) _ (record { disconnected = refl; unsubscribed = refl })))
      | inl (streams, g) ↦
          elim (Result-cases (
            w.connect (connector_url_or_default c.nats) (text "airpc-connector-" ++ id)
              c.nats.creds_file)) [
                | inr (x, k) ↦
                    rw (f, start_connector)
                      (rw g (
                        rw k (
                          failed c id (nats_failed x) _
                            (record { disconnected = refl; unsubscribed = refl }))))
                | inl (u, k) ↦
                    rw (f, start_connector)
                      (rw g (rw k (behind_connect-Outcome c id routes streams f g)))
              ]
    ]
  ]
