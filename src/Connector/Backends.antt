-- ===== src/Connector/Backends.antt =====
-- `relayTCPBackend` and `relayWebSocketBackend` of internal/connector/data.go: what a session of the
-- connector is joined to. Whether a dial succeeds is an argument.
use airpc.Prelude.{
  ◌≡◌, ◌⊎◌, ◌||◌, inl, inr, refl, Bool, true, false, none, some, Text, text, text_eq, is_empty, ok,
  arith, if◌then◌else◌, Bool-cases, Option-cases, contains_any, elem,
}
use airpc.Url.{Url, UrlParser}
use airpc.Config.Tokens.{mode_grpc, mode_websocket, mode_tcp}
use airpc.Tunnel.{validate_frame, validate_type, valid_token, error_text_refused}
use airpc.Session.{error_of}
use airpc.Connector.{StreamRoute, target_url}

-- The session is closed with an error, or relayed to a TCP connection or to a WebSocket.
pub data Backend : Type 0 where
  refused : Text → Backend
  tcp_backend : Text → Backend
  websocket_backend : Url → Backend
  -- no case of the switch, or no target
  not_relayed : Backend

unfoldable pub relay_tcp_backend : (Text → Bool) → StreamRoute → Backend
relay_tcp_backend dials r =
    if dials r.cfg.target then tcp_backend r.cfg.target else refused (text "backend dial failed")

-- A WebSocket route has a target, which `streamRoutes` has parsed.
unfoldable pub relay_websocket_backend : UrlParser → (Url → Bool) → Url → Text → Backend
relay_websocket_backend parse dials base path =
    elim (target_url parse base (if is_empty path then text "/" else path)) [
      | none ↦ refused (text "invalid websocket path")
      | some u ↦
          if dials u then websocket_backend u else refused (text "backend websocket dial failed")
    ]

-- The goroutine of `handleOpen`, for a session that is accepted, with the payload of its open frame.
unfoldable pub relay_backend :
    UrlParser → (Text → Bool) → (Url → Bool) → StreamRoute → Text → Backend
unfolding relay_tcp_backend relay_websocket_backend
relay_backend parse dials_tcp dials_ws r payload =
    if text_eq r.cfg.mode mode_tcp || text_eq r.cfg.mode mode_grpc
    then relay_tcp_backend dials_tcp r
    else if text_eq r.cfg.mode mode_websocket
    then elim r.target [
      | some base ↦ relay_websocket_backend parse dials_ws base payload
      | none ↦ not_relayed
    ]
    else not_relayed

-- A session that is refused is told so by a frame that the link does send.
pub data IsTelling (session_id : Text) : Backend → Type 0 where
  tells :
      (reason : Text)
      → validate_frame (error_of session_id reason) ≡ ok tt
      → IsTelling session_id (refused reason)
  to_tcp : (address : Text) → IsTelling session_id (tcp_backend address)
  to_websocket : (u : Url) → IsTelling session_id (websocket_backend u)

-- A route of the table that `streamRoutes` makes.
abbrev pub IsStream : StreamRoute → Type 0
IsStream r =
    ((text_eq r.cfg.mode mode_tcp || text_eq r.cfg.mode mode_grpc) ≡ true)
    ⊎ ((text_eq r.cfg.mode mode_websocket ≡ true) × ((base : Url) × (r.target ≡ some base)))

module _ (id : Text) (valid : valid_token id ≡ true) where
  error_frame :
      (reason : Text)
      → error_text_refused reason ≡ false
      → validate_frame (error_of id reason) ≡ ok tt
  unfolding validate_frame validate_type text_eq
  error_frame reason h = ground (arith, valid)

  tcp-IsTelling : (dials : Text → Bool) (r : StreamRoute) → IsTelling id (relay_tcp_backend dials r)
  unfolding relay_tcp_backend error_text_refused contains_any elem
  tcp-IsTelling dials r = elim (Bool-cases (dials r.cfg.target)) [
    | inl up ↦ rw (up, relay_tcp_backend) (to_tcp r.cfg.target)
    | inr down ↦
        rw (down, relay_tcp_backend)
          (tells (text "backend dial failed") (error_frame (text "backend dial failed") refl))
  ]

  websocket-IsTelling :
      (parse : UrlParser) (dials : Url → Bool) (base : Url) (path : Text)
      → IsTelling id (relay_websocket_backend parse dials base path)
  unfolding relay_websocket_backend error_text_refused contains_any elem
  websocket-IsTelling parse dials base path =
      elim (Option-cases (target_url parse base (if is_empty path then text "/" else path))) [
        | inl bad ↦
            rw (bad, relay_websocket_backend)
              (tells (text "invalid websocket path")
                (error_frame (text "invalid websocket path") refl))
        | inr (u, good) ↦ elim (Bool-cases (dials u)) [
          | inl up ↦ rw (good, relay_websocket_backend) (rw up (to_websocket u))
          | inr down ↦
              rw (good, relay_websocket_backend)
                (rw down (
                  tells (text "backend websocket dial failed")
                    (error_frame (text "backend websocket dial failed") refl)))
        ]
      ]

  -- Whatever the backend does, an accepted session of a stream route, with an id that frames allow, is
  -- relayed to the backend, or is closed with an error frame that says why and that passes the validation.
  pub relay_backend-IsTelling :
      (parse : UrlParser) (dials_tcp : Text → Bool) (dials_ws : Url → Bool) (r : StreamRoute)
      (payload : Text)
      → IsStream r
      → IsTelling id (relay_backend parse dials_tcp dials_ws r payload)
  unfolding relay_backend
  relay_backend-IsTelling parse dials_tcp dials_ws r payload kind =
      elim (Bool-cases (text_eq r.cfg.mode mode_tcp || text_eq r.cfg.mode mode_grpc)) [
        | inl tcp ↦ rw (tcp, relay_backend) (tcp-IsTelling dials_tcp r)
        | inr other ↦ elim kind [
          | inl tcp ↦ absurd (ground (arith, tcp, other))
          | inr (ws, (base, has_base)) ↦
              let same : relay_backend parse dials_tcp dials_ws r payload
                  ≡ relay_websocket_backend parse dials_ws base payload =
                ground (arith, other, ws, has_base) in
              rw same (websocket-IsTelling parse dials_ws base payload)
        ]
      ]
