-- ===== src/Connector/Settings.antt =====
-- What a connector that has started by internal/connector/connector.go holds, in the words of its
-- configuration.
use airpc.Prelude.{
  ◌≡◌, ◌⊎◌, inl, inr, refl, sym, ◌∙◌, ap, subst, true, false, List, [], ◌∷◌, ◌++◌, Option, none,
  some, Text, text_eq, insert, erase, ok, err, All, arith, Bool-cases, Option-cases, Result-cases,
}
use mathlib.Core.List.{Memᴰ}
use airpc.Url.{UrlParser}
use airpc.Config.Shape
use airpc.Config.Shape.{Config, TlsClientConfig}
use airpc.Config.Tokens.{mode_http}
use airpc.Config.Tls.{Files, TlsConfig, client_tls}
use airpc.Config.Mutual.{IsTrusting, client_tls-IsTrusting}
use airpc.Connector.{
  StreamRoute, ProxyRoute, http_routes, stream_routes, stream_routes_from, stream_target,
}
use airpc.Connector.Starting.{
  Subscription, TunnelClient, Holding, Outside, StartError, unary_subscription, open_subscription,
  cancel_subscription, unary_subscriptions, open_subscriptions, cancel_subscriptions, wanted,
  tunnel_tls, start_tunnel_client, start_connector,
}
use airpc.Connector.Served.{IsReleased, start_connector-Outcome}
use airpc.Connector.Subjects.{
  Serves, Memᴰ-left, Memᴰ-right, All-of, unary_served, start_connector-Serves,
}

abbrev IsHttp : Shape.Route → Type 0
IsHttp r = text_eq r.mode mode_http ≡ true

-- What the routes of a configuration ask to subscribe to.
pub data IsNeeded (routes : List Shape.Route) : Subscription → Type 0 where
  for_calls : (r : Shape.Route) → Memᴰ r routes → IsHttp r → IsNeeded routes (unary_subscription r)
  for_opens :
      (r : Shape.Route)
      → Memᴰ r routes
      → text_eq r.mode mode_http ≡ false
      → IsNeeded routes (open_subscription r)
  for_cancels : (r : Shape.Route) → Memᴰ r routes → IsHttp r → IsNeeded routes cancel_subscription

-- The calls of an HTTP route can be cancelled.
abbrev pub HearsCancels : List Subscription → Shape.Route → Type 0
HearsCancels subs r = (text_eq r.mode mode_http ≡ false) ⊎ Memᴰ cancel_subscription subs

-- TLS of the dial as the configuration asks for it.
abbrev pub TlsOf : Files → Option TlsClientConfig → Option TlsConfig → Type 0
TlsOf files none tls = tls ≡ none
TlsOf files (some t) tls = (k : TlsConfig) × (tls ≡ some k) × IsTrusting files t k

pub record HasSettings (w : Outside) (c : Config) (id : Text) (t : TunnelClient) : Type 0 where
  pub named : t.id ≡ id
  pub target : w.parse c.connector.edge_data_url ≡ some t.target
  pub token : t.token ≡ c.connector.tunnel_token
  pub tls : TlsOf w.files c.connector.tls t.tls

pub record IsStarted (w : Outside) (c : Config) (id : Text) (h : Holding) : Type 0 where
  pub connected : h.connected ≡ true
  pub serves : All (Serves h.subscriptions) c.routes
  pub hears : All (HearsCancels h.subscriptions) c.routes
  pub needed : All (IsNeeded c.routes) h.subscriptions
  pub client : TunnelClient
  pub tunnel_is : h.tunnel ≡ some client
  pub settings : HasSettings w c id client

All-append {ℓ κ} :
    {A : Type ℓ} (P : A → Type κ) (xs ys : List A) → All P xs → All P ys → All P (xs ++ ys)
All-append P [] ys p q = q
All-append P (x ∷ xs) ys p q = (p.0, All-append P xs ys p.1 q)

-- The routes of a list are among those of another.
abbrev Among : List Shape.Route → List Shape.Route → Type 0
Among all rs = (r : Shape.Route) → Memᴰ r rs → Memᴰ r all

module _ (parse : UrlParser) (all : List Shape.Route) where
  calls_needed :
      (rs : List Shape.Route) (out : List ProxyRoute)
      → http_routes parse rs ≡ ok out
      → Among all rs
      → All (λ p. Memᴰ p.cfg all × IsHttp p.cfg) out
  unfolding http_routes
  calls_needed [] out h sub =
      let same : ◌≡◌ {A = List ProxyRoute} [] out = ground arith in
      subst (λ l. All (λ p. Memᴰ p.cfg all × IsHttp p.cfg) l) same tt
  calls_needed (q ∷ rs) out h sub = elim (Bool-cases (text_eq q.mode mode_http)) [
    | inl is_http ↦ elim (Option-cases (parse q.target)) [
      | inl bad ↦ absurd (ground (arith, is_http, bad, h))
      | inr (target, good) ↦ elim (Result-cases (http_routes parse rs)) [
        | inr (x, f) ↦ absurd (ground (arith, is_http, good, f, h))
        | inl (rest, f) ↦
            let out_is : record { cfg = q; target = target } ∷ rest ≡ out =
              ground (arith, is_http, good, f, h) in
            let more = calls_needed rs rest f (λ r m. sub r (Memᴰ.tail m)) in
            subst (λ l. All (λ p. Memᴰ p.cfg all × IsHttp p.cfg) l) out_is
              ((sub q (Memᴰ.head refl), is_http), more)
      ]
    ]
    | inr other ↦ calls_needed rs out (ground (arith, other, h)) (λ r m. sub r (Memᴰ.tail m))
  ]

  abbrev IsStream : Text × StreamRoute → Type 0
  IsStream e = Memᴰ e.1.cfg all × (text_eq e.1.cfg.mode mode_http ≡ false)

  erase-IsStream :
      (k : Text) (m : List (Text × StreamRoute)) → All IsStream m → All IsStream (erase k m)
  unfolding erase
  erase-IsStream k [] a = tt
  erase-IsStream k ((j, v) ∷ m) a = elim (Bool-cases (text_eq j k)) [
    | inl same ↦ rw same (erase-IsStream k m a.1)
    | inr other ↦ rw other (a.0, erase-IsStream k m a.1)
  ]

  opens_needed :
      (out : List (Text × StreamRoute)) (rs : List Shape.Route) (m : List (Text × StreamRoute))
      → stream_routes_from parse out rs ≡ ok m
      → Among all rs
      → All IsStream out
      → All IsStream m
  unfolding stream_routes_from insert
  opens_needed out [] m h sub a =
      let same : out ≡ m = ground arith in subst (λ l. All IsStream l) same a
  opens_needed out (q ∷ rs) m h sub a = elim (Bool-cases (text_eq q.mode mode_http)) [
    | inl is_http ↦
        opens_needed out rs m (ground (arith, is_http, h)) (λ r i. sub r (Memᴰ.tail i)) a
    | inr other ↦ elim (Result-cases (stream_target parse q)) [
      | inr (x, f) ↦ absurd (ground (arith, other, f, h))
      | inl (target, f) ↦
          opens_needed (insert q.name (record { cfg = q; target = target }) out) rs m
            (ground (arith, other, f, h)) (λ r i. sub r (Memᴰ.tail i))
            ((sub q (Memᴰ.head refl), other), erase-IsStream q.name out a)
    ]
  ]

  calls-IsNeeded :
      (out : List ProxyRoute)
      → All (λ p. Memᴰ p.cfg all × IsHttp p.cfg) out
      → All (IsNeeded all) (unary_subscriptions out)
  calls-IsNeeded [] a = tt
  calls-IsNeeded (p ∷ out) ((m, i), a) = (for_calls p.cfg m i, calls-IsNeeded out a)

  opens-IsNeeded :
      (m : List (Text × StreamRoute)) → All IsStream m → All (IsNeeded all) (open_subscriptions m)
  opens-IsNeeded [] a = tt
  opens-IsNeeded ((k, v) ∷ m) ((i, s), a) = (for_opens v.cfg i s, opens-IsNeeded m a)

  cancels-IsNeeded :
      (out : List ProxyRoute)
      → All (λ p. Memᴰ p.cfg all × IsHttp p.cfg) out
      → All (IsNeeded all) (cancel_subscriptions out)
  cancels-IsNeeded [] a = tt
  cancels-IsNeeded (p ∷ out) ((m, i), a) = (for_cancels p.cfg m i, tt)

tunnel_tls-TlsOf :
    (w : Outside) (o : Option TlsClientConfig) (tls : Option TlsConfig)
    → tunnel_tls w o ≡ ok tls
    → TlsOf w.files o tls
unfolding tunnel_tls
tunnel_tls-TlsOf w none tls h = ground (arith, h)
tunnel_tls-TlsOf w (some t) tls h = elim (Result-cases (client_tls w.files t)) [
  | inr (x, f) ↦ absurd (ground (arith, f, h))
  | inl (k, f) ↦ (k, ground (arith, f, h), client_tls-IsTrusting w.files t k f)
]

-- With an HTTP route, cancels are heard.
heard_of :
    (parse : UrlParser) (rs : List Shape.Route) (out : List ProxyRoute) (r : Shape.Route)
    → http_routes parse rs ≡ ok out
    → Memᴰ r rs
    → IsHttp r
    → Memᴰ cancel_subscription (cancel_subscriptions out)
heard_of parse rs [] r h m http = elim (unary_served parse rs [] r h m http) [ ]
heard_of parse rs (p ∷ out) r h m http = Memᴰ.head refl

-- The settings of a tunnel client.
start_tunnel_client-HasSettings :
    (w : Outside) (c : Config) (id : Text) (t : TunnelClient)
    → start_tunnel_client w c id ≡ ok t
    → HasSettings w c id t
unfolding start_tunnel_client
start_tunnel_client-HasSettings w c id t h =
    elim (Option-cases (w.parse c.connector.edge_data_url)) [
      | inl bad ↦ absurd (ground (arith, bad, h))
      | inr (u, good) ↦ elim (Result-cases (tunnel_tls w c.connector.tls)) [
        | inr (x, f) ↦ absurd (ground (arith, good, f, h))
        | inl (tls, f) ↦ record {
          named = ground (arith, good, f, h);
          target = ground (arith, good, f, h);
          token = ground (arith, good, f, h);
          tls =
              let same : tls ≡ t.tls = ground (arith, good, f, h) in
              tunnel_tls-TlsOf w c.connector.tls t.tls (f ∙ ap (λ x. ok x) same);
        }
      ]
    ]

-- A connector that does not start gives up its connection and all its subscriptions. One that starts is
-- connected; serves every route by the subject and queue group of its calls or opens, and hears cancels
-- if there is an HTTP route; has no subscription but these; and has a tunnel client with the id, the URL,
-- the token and the TLS settings of the configuration.
pub start_connector-IsStarted :
    (w : Outside) (c : Config) (id : Text)
    → ((e : StartError) × ((start_connector w c id).0 ≡ err e)
        × IsReleased (start_connector w c id).1)
      ⊎ (((start_connector w c id).0 ≡ ok tt) × IsStarted w c id (start_connector w c id).1)
unfolding wanted stream_routes
start_connector-IsStarted w c id = elim (Result-cases (start_connector w c id).0) [
  | inr (e, f) ↦ inl (e, f, (start_connector-Outcome w c id).on_error e f)
  | inl (u, f) ↦
      let v = (start_connector-Outcome w c id).on_success f in
      let calls = calls_needed w.parse c.routes c.routes v.routes v.routes_are (λ r m. m) in
      let opens = opens_needed w.parse c.routes [] c.routes v.streams v.streams_are (λ r m. m) tt in
      inr (
        f,
        record {
          connected = v.connected;
          serves = start_connector-Serves w c id f;
          hears = All-of (HearsCancels (start_connector w c id).1.subscriptions) c.routes (λ r m.
              elim (Bool-cases (text_eq r.mode mode_http)) [
                | inr other ↦ inl other
                | inl is_http ↦ inr (
                    rw v.subscribed (
                      Memᴰ-right _ (unary_subscriptions v.routes) _ (
                        Memᴰ-left _ (cancel_subscriptions v.routes) _
                          (heard_of w.parse c.routes v.routes r v.routes_are m is_http))))
              ]);
          needed =
              subst (λ l. All (IsNeeded c.routes) l) (sym v.subscribed)
                (All-append (IsNeeded c.routes) (unary_subscriptions v.routes) _
                  (calls-IsNeeded w.parse c.routes v.routes calls)
                  (All-append (IsNeeded c.routes) (cancel_subscriptions v.routes) _
                    (cancels-IsNeeded w.parse c.routes v.routes calls)
                    (opens-IsNeeded w.parse c.routes v.streams opens)));
          client = v.client;
          tunnel_is = v.tunnel_is;
          settings = start_tunnel_client-HasSettings w c id v.client v.client_is;
        },
      )
]
