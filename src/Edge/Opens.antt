-- ===== src/Edge/Opens.antt =====
-- How a session of internal/edge/data.go comes about: what an opened session has behind it, and that
-- the edge and a connector that serves the route get it open.
use airpc.Prelude.{
  ℕ, ◌≡◌, inl, inr, true, List, [], ◌∷◌, ◌++◌, none, some, Text, text_eq, text_eq_iff, text_eq_refl,
  ℤ, lookup, lookup-insert, get_elem?, length, ok, arith, Bool-cases, Option-cases, Result-cases,
}
use airpc.Codec.{Codec, RoundTrips, IsTotal}
use airpc.Tunnel.{
  Frame, OpenRequest, OpenResponse, validate_frame, encode_frame, decode_frame, encode_open_request,
  decode_open_response,
}
use airpc.Link.{Link, open_session, add_session, write_frame}
use airpc.Config.Shape
use airpc.Config.Tokens.{open_subject}
use airpc.Edge.Tunnels.{
  Tunnels, Attempt, Opened, get, is_transient, open_on, request_of, frame_of, accept_reply,
  attempt_open_data_session, open_data_session,
}

on_registered :
    (fc : Codec Frame) (f : Frame) (id : Text) (t t' : Tunnels) (p s : ℕ)
    → open_on fc f id t ≡ (ok (p, s), t')
    → get id t ≡ some p
unfolding open_on
on_registered fc f id t t' p s h = elim (Option-cases (get id t)) [
  | inl e ↦ absurd (ground (arith, e, h))
  | inr (q, e) ↦ elim (Option-cases (get_elem? t.links q)) [
    | inl g ↦ absurd (ground (arith, e, g, h))
    | inr (l, g) ↦ elim (Result-cases (open_session fc f l).0) [
      | inl (a, k) ↦ ground (arith, e, g, k, h)
      | inr (x, k) ↦ absurd (ground (arith, e, g, k, h))
    ]
  ]
]

module _ (fc : Codec Frame) (c : Codec OpenRequest) (d : Codec OpenResponse) (r : Shape.Route)
    (session_id path : Text) (deadline : ℤ) where
  -- One attempt.
  abbrev try_open : Attempt → Tunnels → Opened
  try_open a t = attempt_open_data_session fc c d r session_id path deadline a t

  -- Which attempts there are, and the tunnels that each of them starts from.
  pub data Tries : Attempt → List Attempt → Tunnels → Attempt → Tunnels → Type 0 where
    at_first : {a : Attempt} {more : List Attempt} {t : Tunnels} → Tries a more t a t
    again :
        {a b x : Attempt} {more : List Attempt} {t met : Tunnels}
        → Tries b more (try_open a t).1 x met
        → Tries a (b ∷ more) t x met

  -- The attempt whose answer a session rests on: what it asked, and the answer, which accepts this very
  -- session for a connector whose tunnel was registered by then.
  pub record Answered (a : Attempt) (met : Tunnels) (p : ℕ) : Type 0 where
    pub payload : Text
    pub encoded : encode_open_request c (request_of r session_id path deadline) ≡ ok payload
    pub reply : Text
    pub replied : a.ask (open_subject r.name) payload ≡ ok reply
    pub resp : OpenResponse
    pub decoded : decode_open_response d reply ≡ ok resp
    pub accepted : resp.accepted ≡ true
    pub answers : resp.request_id ≡ session_id
    pub registered : get resp.connector_id (a.meanwhile met) ≡ some p

  pub record Backing (a : Attempt) (more : List Attempt) (t : Tunnels) (p : ℕ) : Type 0 where
    pub attempt : Attempt
    pub met : Tunnels
    pub made : Tries a more t attempt met
    pub answered : Answered attempt met p

  accept_reply-registered :
      (reply : Text) (t t' : Tunnels) (p s : ℕ)
      → accept_reply fc c d r session_id path deadline reply t ≡ (ok (p, s), t')
      → (resp : OpenResponse) × (decode_open_response d reply ≡ ok resp)
        × (resp.accepted ≡ true)
        × (resp.request_id ≡ session_id)
        × (get resp.connector_id t ≡ some p)
  unfolding accept_reply
  accept_reply-registered reply t t' p s h = elim (Result-cases (decode_open_response d reply)) [
    | inr (x, e) ↦ absurd (ground (arith, e, h))
    | inl (resp, e) ↦ elim (Bool-cases (text_eq resp.request_id session_id)) [
      | inr g ↦ absurd (ground (arith, e, g, h))
      | inl g ↦ elim (Bool-cases resp.accepted) [
        | inr k ↦ absurd (ground (arith, e, g, k, h))
        | inl k ↦
            let f = frame_of r session_id path in
            let o : open_on fc f resp.connector_id t ≡ (ok (p, s), t') =
              ground (arith, e, g, k, h) in
            (
              resp,
              e,
              k,
              (text_eq_iff resp.request_id session_id).0 g,
              on_registered fc f resp.connector_id t t' p s o,
            )
      ]
    ]
  ]

  attempt-Answered :
      (a : Attempt) (t t' : Tunnels) (p s : ℕ)
      → attempt_open_data_session fc c d r session_id path deadline a t ≡ (ok (p, s), t')
      → Answered a t p
  unfolding attempt_open_data_session
  attempt-Answered a t t' p s h =
      elim (Result-cases (encode_open_request c (request_of r session_id path deadline))) [
        | inr (x, e) ↦ absurd (ground (arith, e, h))
        | inl (payload, e) ↦ elim (Result-cases (a.ask (open_subject r.name) payload)) [
          | inr (x, g) ↦ absurd (ground (arith, e, g, h))
          | inl (reply, g) ↦
              let (resp, decoded, accepted, answers, registered) =
                accept_reply-registered reply (a.meanwhile t) t' p s (ground (arith, e, g, h)) in
              record {
                payload = payload;
                encoded = e;
                reply = reply;
                replied = g;
                resp = resp;
                decoded = decoded;
                accepted = accepted;
                answers = answers;
                registered = registered;
              }
        ]
      ]

  -- However often it is tried: a session is only ever opened on the tunnel of the connector that has
  -- answered one of the attempts on the subject of the route, accepting this very session; that tunnel was
  -- registered for it when the answer came.
  pub open_data_session-Backing :
      (a : Attempt) (more : List Attempt) (t t' : Tunnels) (p s : ℕ)
      → open_data_session fc c d r session_id path deadline a more t ≡ (ok (p, s), t')
      → Backing a more t p
  unfolding open_data_session
  open_data_session-Backing a [] t t' p s h = record {
    attempt = a;
    met = t;
    made = at_first;
    answered = attempt-Answered a t t' p s h;
  }
  open_data_session-Backing a (b ∷ more) t t' p s h =
      let first = attempt_open_data_session fc c d r session_id path deadline a t in
      elim (Result-cases first.0) [
        | inl ((q, u), e) ↦ record {
          attempt = a;
          met = t;
          made = at_first;
          answered = attempt-Answered a t t' p s (ground (arith, e, h));
        }
        | inr (x, e) ↦ elim (Bool-cases (is_transient x)) [
          | inr g ↦ absurd (ground (arith, e, g, h))
          | inl g ↦
              let ih = open_data_session-Backing b more first.1 t' p s (ground (arith, e, g, h)) in
              record {
                attempt = ih.attempt;
                met = ih.met;
                made = again ih.made;
                answered = ih.answered;
              }
        ]
      ]

-- A link that is up and does not know the session opens it: the frame is written, and the session is
-- registered.
pub record OpenedSession (fc : Codec Frame) (f : Frame) (l l' : Link) : Type 0 where
  pub bytes : Text
  pub written : l'.written ≡ l.written ++ bytes ∷ []
  pub readable : decode_frame fc bytes ≡ ok f
  pub found : lookup f.session_id l'.sessions ≡ some (length l.store)

pub open_session-Opened :
    (fc : Codec Frame) (f : Frame) (l : Link)
    → RoundTrips fc
    → IsTotal fc
    → validate_frame f ≡ ok tt
    → l.connected ≡ true
    → lookup f.session_id l.sessions ≡ none
    → (l' : Link) × (open_session fc f l ≡ (ok (length l.store), l')) × OpenedSession fc f l l'
unfolding open_session add_session write_frame encode_frame decode_frame
open_session-Opened fc f l rt total v up free =
    let (b, m) = total f in
    let back = rt f b m in
    let i = lookup-insert f.session_id f.session_id (length l.store) l.sessions in
    let same = text_eq_refl f.session_id in
    (
      (open_session fc f l).1,
      ground (arith, v, m, up, free),
      record {
        bytes = b;
        written = ground (arith, v, m, up, free);
        readable = ground (arith, back, v);
        found = ground (arith, v, m, up, free, i, same);
      },
    )
