-- ===== src/Edge/Streams.antt =====
-- `serveStreamedResponse` of internal/edge/edge.go: the body of a reply that comes over the data
-- tunnel. The choices of its `select` are a list of events.
use airpc.Prelude.{
  ℕ, suc, ◌≡◌, ◌⊎◌, refl, ap, inl, inr, Bool, true, false, ◌||◌, List, [], ◌∷◌, ◌++◌, none, some,
  Text, text_eq, All, ℤ, if◌then◌else◌, arith, Bool-cases,
}
use airpc.Tunnel.{Frame, frame_data, frame_eof, frame_close, frame_error}
use airpc.Unary.{Header, Response}
use airpc.Headers.{filter_response}
use airpc.Link.{Link}
use airpc.Edge.Tunnels.{Tunnels, get}
use airpc.Edge.Admission.{claim_stream_session}

-- The client leaves, the session is done, or a frame comes; the flag tells whether its payload can be
-- written to the client.
pub data Event : Type 0 where
  client_left session_done : Event
  received : Frame → Bool → Event

-- How the handler ends: cleanly with the body, by itself as nobody reads, or by aborting the
-- connection of the client. `open_end` if the events are used up.
pub data End : Type 0 where
  complete given_up aborted open_end : End

pub record Relayed : Type 0 where
  pub body : List Text
  pub acked : ℕ
  pub ending : End

abbrev ends : End → Relayed
ends e = record { body = []; acked = 0; ending = e }

abbrev wrote : Text → Relayed → Relayed
wrote payload rest = record {
  body = payload ∷ rest.body;
  acked = suc rest.acked;
  ending = rest.ending;
}

abbrev pub is_type : Text → Frame → Bool
is_type t f = text_eq f.frame_type t

-- The loop.
unfoldable pub relay_body : List Event → Relayed
relay_body [] = ends open_end
relay_body (client_left ∷ es) = ends given_up
relay_body (session_done ∷ es) = ends aborted
relay_body (received f writable ∷ es) =
    let rest = relay_body es in
    if is_type frame_data f
    then if writable then wrote f.payload rest else ends given_up
    else if is_type frame_eof f
    then ends complete
    else if is_type frame_close f || is_type frame_error f
    then ends aborted
    else rest

-- The answer: 502 without a session, or the status, the headers and the body, and which session the
-- handler closes in the end.
pub data StreamAnswer : Type 0 where
  no_stream : StreamAnswer
  relayed : ℤ → Header → Relayed → ℕ → StreamAnswer

-- `polls` are the states in which the link is found while the session is claimed.
unfoldable pub serve_streamed_response : Tunnels → List Link → List Event → Response → StreamAnswer
unfolding relay_body
serve_streamed_response t polls events resp = elim (get resp.connector_id t) [
  | none ↦ no_stream
  | some p ↦ elim (claim_stream_session resp.stream_session_id polls) [
    | none ↦ no_stream
    | some (s, l) ↦ relayed resp.status (filter_response resp.headers) (relay_body events) s
  ]
]

-- The payloads of the data frames, in order.
unfoldable pub payloads : List Event → List Text
payloads [] = []
payloads (client_left ∷ es) = payloads es
payloads (session_done ∷ es) = payloads es
payloads (received f writable ∷ es) =
    let rest = payloads es in if is_type frame_data f then f.payload ∷ rest else rest

-- The body went on: data that was written, or a frame without meaning for a body.
abbrev pub GoesOn : Event → Type 0
GoesOn client_left = ⊥
GoesOn session_done = ⊥
GoesOn (received f writable) =
    ((is_type frame_data f ≡ true) × (writable ≡ true))
    ⊎ ((is_type frame_data f ≡ false)
        × (is_type frame_eof f ≡ false)
        × ((is_type frame_close f || is_type frame_error f) ≡ false))

-- The events up to the end of the body.
pub record WholeBody (es : List Event) (r : Relayed) : Type 0 where
  pub before : List Event
  pub last : Frame
  pub writable : Bool
  pub after : List Event
  pub split : es ≡ before ++ received last writable ∷ after
  pub going_on : All GoesOn before
  pub end_of_body : is_type frame_eof last ≡ true
  pub all_written : r.body ≡ payloads before

go_on :
    (e : Event) (es : List Event) (r s : Relayed)
    → GoesOn e
    → WholeBody es r
    → ((w : WholeBody es r) → s.body ≡ payloads (e ∷ w.before))
    → WholeBody (e ∷ es) s
go_on e es r s g w written = record {
  before = e ∷ w.before;
  last = w.last;
  writable = w.writable;
  after = w.after;
  split = ap (λ l. e ∷ l) w.split;
  going_on = (g, w.going_on);
  end_of_body = w.end_of_body;
  all_written = written w;
}

-- A response that ends cleanly is whole: every payload before the end of the body has been written to
-- the client, in order. Whatever cuts a stream short ends otherwise.
pub relay_body-WholeBody :
    (es : List Event) → (relay_body es).ending ≡ complete → WholeBody es (relay_body es)
unfolding relay_body payloads
relay_body-WholeBody [] h = absurd (ground arith)
relay_body-WholeBody (client_left ∷ es) h = absurd (ground arith)
relay_body-WholeBody (session_done ∷ es) h = absurd (ground arith)
relay_body-WholeBody (received f writable ∷ es) h = elim (Bool-cases (is_type frame_data f)) [
  | inl d ↦ elim (Bool-cases writable) [
    | inr k ↦ absurd (ground (arith, d, k, h))
    | inl k ↦
        let w = relay_body-WholeBody es (ground (arith, d, k, h)) in
        go_on (received f writable) es (relay_body es) _ (inl (d, k)) w
          (λ v. let e = v.all_written in ground (arith, d, k, e))
  ]
  | inr d ↦ elim (Bool-cases (is_type frame_eof f)) [
    | inl e ↦ record {
      before = [];
      last = f;
      writable = writable;
      after = es;
      split = refl;
      going_on = tt;
      end_of_body = e;
      all_written = ground (arith, d, e);
    }
    | inr e ↦ elim (Bool-cases (is_type frame_close f || is_type frame_error f)) [
      | inl x ↦ absurd (ground (arith, d, e, x, h))
      | inr x ↦
          let w = relay_body-WholeBody es (ground (arith, d, e, x, h)) in
          go_on (received f writable) es (relay_body es) _ (inr (d, e, x)) w
            (λ v. let y = v.all_written in ground (arith, d, e, x, y))
    ]
  ]
]
