-- ===== src/Connector/Streams.antt =====
-- `handleOpen` of internal/connector/data.go: the connector's side of an open frame. The relay that
-- it starts is a value.
use airpc.Prelude.{
  ℕ, ◌||◌, not, List, Option, none, some, Text, text, text_eq, lookup, ok, err, if◌then◌else◌,
}
use airpc.Codec.{Codec}
use airpc.Tunnel.{Frame}
use airpc.Session.{error_of}
use airpc.Link.{Link, accept, try_write}
use airpc.Config.Tokens.{mode_tcp, mode_grpc, mode_websocket}
use airpc.Connector.{StreamRoute}

-- `relayTCPBackend` or `relayWebSocketBackend`, with the session and the path.
pub data Relay : Type 0 where
  to_tcp : StreamRoute → ℕ → Relay
  to_websocket : StreamRoute → ℕ → Text → Relay

-- The switch on the mode; another mode starts nothing.
unfoldable pub relay_of : StreamRoute → ℕ → Text → Option Relay
relay_of r p path =
    if text_eq r.cfg.mode mode_tcp || text_eq r.cfg.mode mode_grpc
    then some (to_tcp r p)
    else if text_eq r.cfg.mode mode_websocket
    then some (to_websocket r p path)
    else none

unfoldable pub handle_open :
    Codec Frame → List (Text × StreamRoute) → Frame → Link → Link × Option Relay
unfolding relay_of
handle_open fc routes f l = elim (lookup f.route routes) [
  | none ↦ (try_write fc (error_of f.session_id (text "route is not configured")) l, none)
  | some r ↦
      if not (text_eq r.cfg.mode f.kind)
      then (try_write fc (error_of f.session_id (text "route is not configured")) l, none)
      else elim (accept f.session_id l) [
        | err e ↦ (try_write fc (error_of f.session_id (text "session already exists")) l, none)
        | ok (p, l') ↦ (l', relay_of r p f.payload)
      ]
]

-- The read loop of the connector's link hands open frames to `handleOpen`.
abbrev pub on_open : Codec Frame → List (Text × StreamRoute) → Option (Frame → Link → Link)
on_open fc routes = some (λ f l. (handle_open fc routes f l).0)
