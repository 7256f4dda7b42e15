-- ===== src/Connector/Subjects.antt =====
-- The subjects that a connector of internal/connector/connector.go serves once it has started.
use airpc.Prelude.{
  ◌≡◌, inl, inr, refl, sym, ◌∙◌, ap, subst, true, false, List, [], ◌∷◌, ◌++◌, Option, some, Text,
  text_eq, text_eq_iff, text_eq_refl, lookup, insert, lookup-insert, ok, All, arith, if◌then◌else◌,
  Bool-cases, Option-cases, Result-cases,
}
use mathlib.Core.List.{Memᴰ}
use airpc.Url.{Url, UrlParser}
use airpc.Config.Shape
use airpc.Config.Shape.{Config, connector_url_or_default}
use airpc.Config.Tokens.{mode_http, open_subject, queue_group}
use airpc.Connector.{
  StreamRoute, ProxyRoute, http_routes, stream_routes, stream_routes_from, stream_target,
}
use airpc.Connector.Served.{start_connector-Outcome}
use airpc.Connector.Starting.{
  Subscription, Outside, unary_subscription, open_subscription, unary_subscriptions,
  open_subscriptions, cancel_subscriptions, wanted, start_connector,
}

-- The subscription that a route needs is among some.
abbrev pub Serves : List Subscription → Shape.Route → Type 0
Serves subs r =
    Memᴰ (if text_eq r.mode mode_http then unary_subscription r else open_subscription r) subs

pub Memᴰ-left {ℓ} : {A : Type ℓ} (a : A) (xs ys : List A) → Memᴰ a xs → Memᴰ a (xs ++ ys)
Memᴰ-left a [] ys m = elim m [ ]
Memᴰ-left a (x ∷ xs) ys (Memᴰ.head e) = Memᴰ.head e
Memᴰ-left a (x ∷ xs) ys (Memᴰ.tail m) = Memᴰ.tail (Memᴰ-left a xs ys m)

pub Memᴰ-right {ℓ} : {A : Type ℓ} (a : A) (xs ys : List A) → Memᴰ a ys → Memᴰ a (xs ++ ys)
Memᴰ-right a [] ys m = m
Memᴰ-right a (x ∷ xs) ys m = Memᴰ.tail (Memᴰ-right a xs ys m)

module _ (parse : UrlParser) where
  -- Each HTTP route has its unary subscription.
  pub unary_served :
      (rs : List Shape.Route) (out : List ProxyRoute) (r : Shape.Route)
      → http_routes parse rs ≡ ok out
      → Memᴰ r rs
      → text_eq r.mode mode_http ≡ true
      → Memᴰ (unary_subscription r) (unary_subscriptions out)
  unfolding http_routes
  unary_served [] out r h m http = elim m [ ]
  unary_served (q ∷ rs) out r h m http = elim (Bool-cases (text_eq q.mode mode_http)) [
    | inl is_http ↦ elim (Option-cases (parse q.target)) [
      | inl bad ↦ absurd (ground (arith, is_http, bad, h))
      | inr (target, good) ↦ elim (Result-cases (http_routes parse rs)) [
        | inr (x, f) ↦ absurd (ground (arith, is_http, good, f, h))
        | inl (rest, f) ↦
            let out_is : record { cfg = q; target = target } ∷ rest ≡ out =
              ground (arith, is_http, good, f, h) in
            subst (λ l. Memᴰ (unary_subscription r) (unary_subscriptions l)) out_is
              (elim m [
                | Memᴰ.head e ↦ Memᴰ.head (ap unary_subscription e)
                | Memᴰ.tail m' ↦ Memᴰ.tail (unary_served rs rest r f m' http)
              ])
      ]
    ]
    | inr other ↦ elim m [
      | Memᴰ.head e ↦
          let same = ap (λ (x : Shape.Route). text_eq x.mode mode_http) e in
          absurd (ground (arith, same, other))
      | Memᴰ.tail m' ↦ unary_served rs out r (ground (arith, other, h)) m' http
    ]
  ]

  -- An entry of a stream route under its name.
  abbrev HasEntry : Text → List (Text × StreamRoute) → Type 0
  HasEntry name m = (v : StreamRoute) × (lookup name m ≡ some v) × (v.cfg.name ≡ name)

  insert-HasEntry :
      (name : Text) (q : Shape.Route) (target : Option Url) (m : List (Text × StreamRoute))
      → HasEntry name m
      → HasEntry name (insert q.name (record { cfg = q; target = target }) m)
  insert-HasEntry name q target m (v, found, named) =
      let v' : StreamRoute = record { cfg = q; target = target } in
      let l = lookup-insert q.name name v' m in
      elim (Bool-cases (text_eq q.name name)) [
        | inl same ↦ (v', ground (arith, same, l), (text_eq_iff q.name name).0 same)
        | inr other ↦ (v, ground (arith, other, l), named)
      ]

  new-HasEntry :
      (q : Shape.Route) (target : Option Url) (m : List (Text × StreamRoute))
      → HasEntry q.name (insert q.name (record { cfg = q; target = target }) m)
  new-HasEntry q target m =
      let v' : StreamRoute = record { cfg = q; target = target } in
      let l = lookup-insert q.name q.name v' m in (v', ground (arith, text_eq_refl q.name, l), refl)

  -- Entries stay.
  named_entry :
      (out : List (Text × StreamRoute)) (rs : List Shape.Route) (m : List (Text × StreamRoute))
      (name : Text)
      → stream_routes_from parse out rs ≡ ok m
      → HasEntry name out
      → HasEntry name m
  unfolding stream_routes_from
  named_entry out [] m name h e =
      let same : out ≡ m = ground arith in subst (λ x. HasEntry name x) same e
  named_entry out (q ∷ rs) m name h e = elim (Bool-cases (text_eq q.mode mode_http)) [
    | inl is_http ↦ named_entry out rs m name (ground (arith, is_http, h)) e
    | inr other ↦ elim (Result-cases (stream_target parse q)) [
      | inr (x, f) ↦ absurd (ground (arith, other, f, h))
      | inl (target, f) ↦
          named_entry (insert q.name (record { cfg = q; target = target }) out) rs m name
            (ground (arith, other, f, h)) (insert-HasEntry name q target out e)
    ]
  ]

  -- Each route that is not HTTP has an entry under its name.
  entry_of :
      (out : List (Text × StreamRoute)) (rs : List Shape.Route) (m : List (Text × StreamRoute))
      (r : Shape.Route)
      → stream_routes_from parse out rs ≡ ok m
      → Memᴰ r rs
      → text_eq r.mode mode_http ≡ false
      → HasEntry r.name m
  unfolding stream_routes_from
  entry_of out [] m r h i other = elim i [ ]
  entry_of out (q ∷ rs) m r h i other = elim (Bool-cases (text_eq q.mode mode_http)) [
    | inl is_http ↦ elim i [
      | Memᴰ.head e ↦
          let same = ap (λ (x : Shape.Route). text_eq x.mode mode_http) e in
          absurd (ground (arith, same, is_http))
      | Memᴰ.tail i' ↦ entry_of out rs m r (ground (arith, is_http, h)) i' other
    ]
    | inr stream ↦ elim (Result-cases (stream_target parse q)) [
      | inr (x, f) ↦ absurd (ground (arith, stream, f, h))
      | inl (target, f) ↦
          let out' = insert q.name (record { cfg = q; target = target }) out in
          let rest : stream_routes_from parse out' rs ≡ ok m = ground (arith, stream, f, h) in
          elim i [
            | Memᴰ.head e ↦
                subst (λ x. HasEntry x m) (sym (ap (λ (x : Shape.Route). x.name) e))
                  (named_entry out' rs m q.name rest (new-HasEntry q target out))
            | Memᴰ.tail i' ↦ entry_of out' rs m r rest i' other
          ]
    ]
  ]

open_served :
    (m : List (Text × StreamRoute)) (k : Text) (v : StreamRoute) (r : Shape.Route)
    → lookup k m ≡ some v
    → v.cfg.name ≡ r.name
    → Memᴰ (open_subscription r) (open_subscriptions m)
unfolding lookup
open_served [] k v r h e = absurd (ground arith)
open_served ((j, q) ∷ m) k v r h e = elim (Bool-cases (text_eq j k)) [
  | inl here ↦
      let same : q ≡ v = ground (arith, here, h) in
      let named : r.name ≡ q.cfg.name = sym (ap (λ (x : StreamRoute). x.cfg.name) same ∙ e) in
      Memᴰ.head (ap (λ n. record { subject = open_subject n; queue = some (queue_group n) }) named)
  | inr there ↦ Memᴰ.tail (open_served m k v r (ground (arith, there, h)) e)
]

pub All-of {ℓ κ} :
    {A : Type ℓ} (P : A → Type κ) (xs : List A) → ((a : A) → Memᴰ a xs → P a) → All P xs
All-of P [] f = tt
All-of P (x ∷ xs) f = (f x (Memᴰ.head refl), All-of P xs (λ a m. f a (Memᴰ.tail m)))

pub start_connector-Serves :
    (w : Outside) (c : Config) (id : Text)
    → (start_connector w c id).0 ≡ ok tt
    → All (Serves (start_connector w c id).1.subscriptions) c.routes
unfolding wanted stream_routes
start_connector-Serves w c id h =
    let v = (start_connector-Outcome w c id).on_success h in
    All-of (Serves (start_connector w c id).1.subscriptions) c.routes (λ r m.
      elim (Bool-cases (text_eq r.mode mode_http)) [
        | inl is_http ↦
            rw (v.subscribed, is_http)
              (Memᴰ-left _ (unary_subscriptions v.routes) _
                (unary_served w.parse c.routes v.routes r v.routes_are m is_http))
        | inr other ↦
            let (entry, found, named) =
              entry_of w.parse [] c.routes v.streams r v.streams_are m other in
            rw (v.subscribed, other)
              (Memᴰ-right _ (unary_subscriptions v.routes) _ (
                Memᴰ-right _ (cancel_subscriptions v.routes) _
                  (open_served v.streams r.name entry r found named)))
      ])
