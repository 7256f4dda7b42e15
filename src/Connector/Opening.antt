-- ===== src/Connector/Opening.antt =====
-- What comes of an open frame at the connector, by `handleOpen` of internal/connector/data.go.
use airpc.Prelude.{
  ℕ, ◌≡◌, ◌≢◌, ◌⊎◌, inl, inr, refl, sym, ◌∙◌, subst, Bool, true, false, List, [], ◌∷◌, Option, none,
  some, Text, text, text_eq, text_eq_iff, text_eq_refl, lookup, lookup-insert, length, ok, All,
  arith, Bool-cases, Option-cases,
}
use airpc.Codec.{Codec}
use airpc.Tunnel.{
  Frame, frame_open, known_kind, validate_route_and_kind, validate_type, validate_frame,
  decode_frame,
}
use airpc.Tunnel.Frames.{validate_frame_iff}
use airpc.Tunnel.Coding.{decode_frame-WellFormed}
use airpc.Session.{error_of}
use airpc.Link.{Link, add_session, try_write, handle_message}
use airpc.Config.Tokens.{mode_tcp, mode_grpc, mode_websocket, mode_http, valid_mode}
use airpc.Connector.{StreamRoute}
use airpc.Connector.Streams.{Relay, to_tcp, to_websocket, relay_of, handle_open, on_open}

-- The relay to the backend of a route: bytes for TCP and gRPC, messages on the path for a WebSocket.
pub data Starts (r : StreamRoute) (p : ℕ) (path : Text) : Option Relay → Type 0 where
  tcp : r.cfg.mode ≡ text "tcp" → Starts r p path (some (to_tcp r p))
  grpc : r.cfg.mode ≡ text "grpc" → Starts r p path (some (to_tcp r p))
  websocket : r.cfg.mode ≡ text "websocket" → Starts r p path (some (to_websocket r p path))

-- A session for a route of the connector, under an id that was free.
pub record Opened (routes : List (Text × StreamRoute)) (f : Frame) (l l' : Link)
    (relay : Option Relay) : Type 0 where
  pub route : StreamRoute
  pub found : lookup f.route routes ≡ some route
  pub same_kind : route.cfg.mode ≡ f.kind
  pub free : lookup f.session_id l.sessions ≡ none
  pub registered : lookup f.session_id l'.sessions ≡ some (length l.store)
  pub starts : Starts route (length l.store) f.payload relay

-- Why a frame opens nothing: there is no such route, the route is of another mode, or the id is taken.
pub data Reason (routes : List (Text × StreamRoute)) (f : Frame) (l : Link) : Type 0 where
  no_route : lookup f.route routes ≡ none → Reason routes f l
  other_mode :
      (r : StreamRoute) → lookup f.route routes ≡ some r → r.cfg.mode ≢ f.kind → Reason routes f l
  taken : (p : ℕ) → lookup f.session_id l.sessions ≡ some p → Reason routes f l

-- Nothing starts; an error frame of the session is written if that can be done.
pub record Refused (fc : Codec Frame) (routes : List (Text × StreamRoute)) (f : Frame) (l l' : Link)
    (relay : Option Relay) : Type 0 where
  pub reason : Reason routes f l
  pub starts_none : relay ≡ none
  pub message : Text
  pub tells : l' ≡ try_write fc (error_of f.session_id message) l

open_kind :
    (fc : Codec Frame) (bytes : Text) (f : Frame)
    → decode_frame fc bytes ≡ ok f
    → f.frame_type ≡ frame_open
    → known_kind f.kind ≡ true
unfolding validate_frame validate_type validate_route_and_kind
open_kind fc bytes f d o =
    let v = (validate_frame_iff f).1 (decode_frame-WellFormed fc bytes f d) in
    let is_open : text_eq f.frame_type frame_open ≡ true =
      (text_eq_iff f.frame_type frame_open).1 o in
    ground (arith, v, is_open)

http_unknown : (k : Text) → k ≡ mode_http → known_kind k ≡ false
unfolding known_kind text_eq
http_unknown k e = subst (λ x. known_kind x ≡ false) (sym e) refl

-- Kinds of frames that are modes of routes are those of streams.
relay_of-Starts :
    (r : StreamRoute) (p : ℕ) (path : Text)
    → known_kind r.cfg.mode ≡ true
    → valid_mode r.cfg.mode ≡ true
    → Starts r p path (relay_of r p path)
unfolding relay_of valid_mode
relay_of-Starts r p path known valid = elim (Bool-cases (text_eq r.cfg.mode mode_tcp)) [
  | inl e ↦ rw e (tcp ((text_eq_iff r.cfg.mode mode_tcp).0 e))
  | inr not_tcp ↦ elim (Bool-cases (text_eq r.cfg.mode mode_grpc)) [
    | inl e ↦ rw not_tcp (rw e (grpc ((text_eq_iff r.cfg.mode mode_grpc).0 e)))
    | inr not_grpc ↦ elim (Bool-cases (text_eq r.cfg.mode mode_websocket)) [
      | inl e ↦
          rw not_tcp (rw not_grpc (rw e (websocket ((text_eq_iff r.cfg.mode mode_websocket).0 e))))
      | inr not_ws ↦
          let http : text_eq r.cfg.mode mode_http ≡ true =
            ground (arith, valid, not_tcp, not_grpc, not_ws) in
          let unknown = http_unknown r.cfg.mode ((text_eq_iff r.cfg.mode mode_http).0 http) in
          absurd (ground (arith, known, unknown))
    ]
  ]
]

All-lookup {ℓ} :
    {V : Type 0} (P : V → Type ℓ) (k : Text) (m : List (Text × V)) (v : V)
    → All (λ e. P e.1) m
    → lookup k m ≡ some v
    → P v
unfolding lookup
All-lookup P k [] v a h = absurd (ground arith)
All-lookup P k ((j, w) ∷ m) v a h = elim (Bool-cases (text_eq j k)) [
  | inl here ↦ let same : w ≡ v = ground (arith, here, h) in subst P same a.0
  | inr there ↦ All-lookup P k m v a.1 (ground (arith, there, h))
]

-- An open frame that arrives at a connector, whose routes have modes of the configuration, does one of two
-- things. It opens a session if its route is there, in its kind, and its id is free: the link registers the
-- session, and with it starts the relay of the mode of the route, to the backend of this route. Or, if one
-- of the three is not so, it starts nothing and changes nothing but that an error frame of its session is
-- written, if the link can.
pub handle_message-opens :
    (fc : Codec Frame) (routes : List (Text × StreamRoute)) (pick : Bool) (bytes : Text) (f : Frame)
    (l : Link)
    → decode_frame fc bytes ≡ ok f
    → f.frame_type ≡ frame_open
    → All (λ e. valid_mode e.1.cfg.mode ≡ true) routes
    → Opened routes f l
        (handle_message fc pick (on_open fc routes) (true, bytes) l)
        (handle_open fc routes f l).1
      ⊎ Refused fc routes f l
          (handle_message fc pick (on_open fc routes) (true, bytes) l)
          (handle_open fc routes f l).1
unfolding handle_message handle_open add_session
handle_message-opens fc routes pick bytes f l d o modes =
    let same = text_eq_refl frame_open in
    let reached : handle_message fc pick (on_open fc routes) (true, bytes) l
        ≡ (handle_open fc routes f l).0 =
      ground (arith, d, o, same) in
    elim (Option-cases (lookup f.route routes)) [
      | inl e ↦ inr (record {
        reason = no_route e;
        starts_none = ground (arith, e);
        message = text "route is not configured";
        tells = reached ∙ ground (arith, e);
      })
      | inr (r, e) ↦ elim (Bool-cases (text_eq r.cfg.mode f.kind)) [
        | inr other ↦ inr (record {
          reason = other_mode r e (λ q.
              let t = (text_eq_iff r.cfg.mode f.kind).1 q in absurd (ground (arith, t, other)));
          starts_none = ground (arith, e, other);
          message = text "route is not configured";
          tells = reached ∙ ground (arith, e, other);
        })
        | inl mode ↦ elim (Option-cases (lookup f.session_id l.sessions)) [
          | inr (p, g) ↦ inr (record {
            reason = taken p g;
            starts_none = ground (arith, e, mode, g);
            message = text "session already exists";
            tells = reached ∙ ground (arith, e, mode, g);
          })
          | inl g ↦
              let is_kind = (text_eq_iff r.cfg.mode f.kind).0 mode in
              let known =
                subst (λ k. known_kind k ≡ true) (sym is_kind) (open_kind fc bytes f d o) in
              let valid =
                All-lookup (λ (v : StreamRoute). valid_mode v.cfg.mode ≡ true) f.route routes r
                  modes e in
              let relay : (handle_open fc routes f l).1 ≡ relay_of r (length l.store) f.payload =
                ground (arith, e, mode, g) in
              let i = lookup-insert f.session_id f.session_id (length l.store) l.sessions in
              let id = text_eq_refl f.session_id in
              inl (record {
                route = r;
                found = e;
                same_kind = is_kind;
                free = g;
                registered =
                    let at : lookup f.session_id (handle_open fc routes f l).0.sessions
                        ≡ some (length l.store) =
                      ground (arith, e, mode, g, i, id) in
                    rw reached at;
                starts =
                    subst (λ x. Starts r (length l.store) f.payload x) (sym relay)
                      (relay_of-Starts r (length l.store) f.payload known valid);
              })
        ]
      ]
    ]
