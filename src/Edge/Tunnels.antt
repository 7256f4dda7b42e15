-- ===== src/Edge/Tunnels.antt =====
-- internal/edge/data.go: the registry of data tunnels, and the opening of a session on the tunnel of
-- a connector. Links are shared objects, so they live in a store and the registry holds addresses.
use airpc.Prelude.{
  ℕ, Bool, true, false, ◌||◌, not, List, [], ◌∷◌, Option, none, some, Text, text, text_eq, is_empty,
  ℤ, lookup, insert, erase, get_elem?, modify, ◌==◌, Result, ok, err, if◌then◌else◌,
}
use airpc.Codec.{Codec}
use airpc.Tunnel
use airpc.Tunnel.{
  Frame, OpenRequest, OpenResponse, version, frame_open, err_tunnel_not_connected, kind_http_stream,
  new_frame, encode_open_request, decode_open_response,
}
use airpc.Link
use airpc.Link.{Link, LinkError, open_session}
use airpc.Config.Shape
use airpc.Config.Tokens.{open_subject}

pub record Tunnels : Type 0 where
  pub links : List Link
  pub registered : List (Text × ℕ)

-- `old.Close()`, if there is an old link.
abbrev pub close_old : Option ℕ → List Link → List Link
close_old none links = links
close_old (some p) links = modify Link.close p links

unfoldable pub register : Text → ℕ → Tunnels → Tunnels
register id p t = record {
  links = close_old (lookup id t.registered) t.links;
  registered = insert id p t.registered;
}

abbrev names : ℕ → Option ℕ → Bool
names p none = false
names p (some q) = q == p

-- A link that has been replaced does not remove its successor.
unfoldable pub unregister : Text → ℕ → Tunnels → Tunnels
unregister id p t =
    if names p (lookup id t.registered) then record t { registered = erase id t.registered } else t

abbrev pub get : Text → Tunnels → Option ℕ
get id t = lookup id t.registered

unfoldable pub close_links : List (Text × ℕ) → List Link → List Link
close_links [] links = links
close_links ((id, p) ∷ more) links = close_links more (modify Link.close p links)

unfoldable pub close_all : Tunnels → Tunnels
unfolding close_links
close_all t = record { links = close_links t.registered t.links; registered = [] }

-- The errors of an attempt, and how `nats.Request` fails.
pub data OpenError : Type 0 where
  not_encoded not_decoded : Tunnel.Error → OpenError
  not_answered : Text → OpenError
  unavailable : OpenError
  rejected : Text → OpenError
  no_tunnel : Text → OpenError
  not_opened : LinkError → OpenError

-- `errors.Is(err, errTunnelUnavailable)`
abbrev pub is_transient : OpenError → Bool
is_transient unavailable = true
is_transient (no_tunnel id) = true
is_transient _ = false

-- The link and the session on it.
abbrev pub Opened : Type 0
Opened = Result OpenError (ℕ × ℕ) × Tunnels

abbrev pub opened_on : ℕ → Tunnels → Result LinkError ℕ × Link → Opened
opened_on p t (ok s, l) = (ok (p, s), record t { links = modify (λ _. l) p t.links })
opened_on p t (err e, l) = (err (not_opened e), record t { links = modify (λ _. l) p t.links })

-- `registry.get(...)` and `link.Open(frame)`; an address of the registry always leads to a link.
unfoldable pub open_on : Codec Frame → Frame → Text → Tunnels → Opened
open_on fc f connector_id t = elim (get connector_id t) [
  | none ↦ (err (no_tunnel connector_id), t)
  | some p ↦ elim (get_elem? t.links p) [
    | none ↦ (err (no_tunnel connector_id), t)
    | some l ↦ opened_on p t (open_session fc f l)
  ]
]

-- The reason that a refusal gives.
abbrev pub refused : OpenResponse → OpenError
refused resp =
    if text_eq resp.error err_tunnel_not_connected
    then unavailable
    else if is_empty resp.error
    then rejected (text "open rejected")
    else rejected resp.error

abbrev pub request_of : Shape.Route → Text → Text → ℤ → OpenRequest
request_of r session_id path deadline = record {
  version = version;
  request_id = session_id;
  session_id = session_id;
  route = r.name;
  kind = r.mode;
  path = path;
  deadline_unix_ms = deadline;
}

abbrev pub frame_of : Shape.Route → Text → Text → Frame
frame_of r session_id path = record (new_frame frame_open session_id) {
  route = r.name;
  kind = r.mode;
  payload = path;
}

-- What others do while an attempt waits: the answer to a message on a subject, and the registry by
-- the time of the answer.
pub record Attempt : Type 0 where
  pub ask : Text → Text → Result Text Text
  pub meanwhile : Tunnels → Tunnels

module _ (fc : Codec Frame) (c : Codec OpenRequest) (d : Codec OpenResponse) (r : Shape.Route)
    (session_id path : Text) (deadline : ℤ) where
  -- What follows the answer of the connector.
  unfoldable pub accept_reply : Text → Tunnels → Opened
  unfolding open_on
  accept_reply reply t = elim (decode_open_response d reply) [
    | err e ↦ (err (not_decoded e), t)
    | ok resp ↦
        if not (text_eq resp.request_id session_id) || not resp.accepted
        then (err (refused resp), t)
        else open_on fc (frame_of r session_id path) resp.connector_id t
  ]

  unfoldable pub attempt_open_data_session : Attempt → Tunnels → Opened
  unfolding accept_reply
  attempt_open_data_session a t =
      elim (encode_open_request c (request_of r session_id path deadline)) [
        | err e ↦ (err (not_encoded e), t)
        | ok payload ↦ elim (a.ask (open_subject r.name) payload) [
          | err e ↦ (err (not_answered e), a.meanwhile t)
          | ok reply ↦ accept_reply reply (a.meanwhile t)
        ]
      ]

  abbrev again : (Tunnels → Opened) → Opened → Opened
  again next (ok s, t) = (ok s, t)
  again next (err e, t) = if is_transient e then next t else (err e, t)

  -- The loop of `openDataSession`: the first attempt, and the further attempts before the timeout.
  unfoldable pub open_data_session : Attempt → List Attempt → Tunnels → Opened
  unfolding attempt_open_data_session
  open_data_session a [] t = attempt_open_data_session a t
  open_data_session a (b ∷ more) t =
      again (λ t'. open_data_session b more t') (attempt_open_data_session a t)
