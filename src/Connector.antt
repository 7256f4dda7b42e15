-- ===== src/Connector.antt =====
-- internal/connector: the private side. It answers the messages of its routes on NATS and opens
-- sessions to the backends.
pub mod Opens
pub mod Unaries
pub mod Replies
pub mod Streams
pub mod Opening
pub mod Bodies
pub mod Backoff
pub mod Inflight
pub mod Kept
pub mod Starting
pub mod Served
pub mod Subjects
pub mod Settings
pub mod Backends
mod StartTests
mod Tests
use airpc.Prelude.{
  ℕ, ◌+◌, ◌*◌, ◌≡◌, Bool, true, false, ◌&&◌, ◌||◌, not, List, [], ◌∷◌, ◌++◌, Option, none, some,
  Text, text, text_eq, is_empty, elem, lookup, insert, ltb, ◌==◌, ℤ, Result, ok, err, if◌then◌else◌,
}
use airpc.Url.{Url, UrlParser}
use airpc.Config.Shape
use airpc.Config.Tokens.{mode_http, mode_websocket}

-- The structs `streamRoute` of data.go and `route` of proxy.go; a TCP route has no URL.
pub record StreamRoute : Type 0 where
  pub cfg : Shape.Route
  pub target : Option Url

pub record ProxyRoute : Type 0 where
  pub cfg : Shape.Route
  pub target : Url

-- The name of the route whose target is no URL.
abbrev pub RouteError : Type 0
RouteError = Text

module _ (parse : UrlParser) where
  stream_target : Shape.Route → Result RouteError (Option Url)
  stream_target r =
      if text_eq r.mode mode_websocket
      then elim (parse r.target) [ some u ↦ ok (some u) | none ↦ err r.name ]
      else ok none

  -- The loop of `streamRoutes`, with the map made so far.
  unfoldable pub stream_routes_from :
      List (Text × StreamRoute) → List Shape.Route → Result RouteError (List (Text × StreamRoute))
  unfolding stream_target
  stream_routes_from out [] = ok out
  stream_routes_from out (r ∷ rs) =
      if text_eq r.mode mode_http then stream_routes_from out rs else elim (stream_target r) [
        | ok target ↦
            stream_routes_from (insert r.name (record { cfg = r; target = target }) out) rs
        | err e ↦ err e
      ]

  unfoldable pub stream_routes : List Shape.Route → Result RouteError (List (Text × StreamRoute))
  unfolding stream_routes_from
  stream_routes routes = stream_routes_from [] routes

  unfoldable pub http_routes : List Shape.Route → Result RouteError (List ProxyRoute)
  http_routes [] = ok []
  http_routes (r ∷ rs) =
      if text_eq r.mode mode_http
      then elim (parse r.target) [
        | some target ↦ elim (http_routes rs) [
          | ok rest ↦ ok (record { cfg = r; target = target } ∷ rest)
          | err e ↦ err e
        ]
        | none ↦ err r.name
      ]
      else http_routes rs

-- The map of `newHTTPProxy`.
unfoldable pub by_name : List (Text × ProxyRoute) → List ProxyRoute → List (Text × ProxyRoute)
by_name out [] = out
by_name out (r ∷ rs) = by_name (insert r.cfg.name r out) rs

-- `strings.TrimRight(path, "/")`
unfoldable pub trim_slashes : Text → Text
trim_slashes [] = []
trim_slashes (c ∷ s) =
    let rest = trim_slashes s in if c == b'/' && is_empty rest then [] else c ∷ rest

-- `targetURL`: the URL of a call on the backend.
unfoldable pub target_url : UrlParser → Url → Text → Option Url
unfolding trim_slashes
target_url parse_request_uri base suffix = elim (parse_request_uri suffix) [
  | none ↦ none
  | some u ↦
      let base_path = trim_slashes base.path in
      let suffix_path = if is_empty u.path then text "/" else u.path in
      some (record base {
        path =
            if is_empty base_path
            then suffix_path
            else if text_eq suffix_path (text "/")
            then base_path ++ text "/"
            else base_path ++ suffix_path;
        raw_query = u.raw_query;
      })
]
