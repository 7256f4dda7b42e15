-- ===== src/Relay/Reading.antt =====
-- What a relay of internal/datatunnel/relay.go reads of its connection, and what it sends of it.
use airpc.Prelude.{
  ◌≡◌, inl, inr, refl, sym, ◌∙◌, ap, Bool, true, false, ◌&&◌, ◌||◌, not, List, [], ◌∷◌, ◌++◌,
  append_assoc, append-nil, Text, text_eq, if◌then◌else◌, arith, Bool-cases,
}
use airpc.Tunnel.{Frame, frame_data, frame_eof, frame_close, frame_error, data_binary}
use airpc.Session.{data_of, eof_of, close_of}
use airpc.Session.Flow.{is_data}
use airpc.Session.Flow.Counting.{payloads, payloads-append}
use airpc.Relay.{
  Event, context_done, session_done, read_failed, read_chunk, read_eof, received, idle_fired, Relay,
  local_end, take_frame, live_step, step, relay_conn,
}

abbrev pub chunk_at : Event → List Text
chunk_at (read_chunk chunk) = chunk ∷ []
chunk_at _ = []

abbrev pub ends_at : Event → Bool
ends_at (read_eof ok) = ok
ends_at _ = false

-- The relay still reads its connection.
abbrev pub reads : Relay → Bool
reads r = r.running && not r.local_eof

-- The chunks that are read while the relay runs, up to the end of the stream.
unfoldable pub chunks_read : Text → Relay → List Event → List Text
chunks_read id r [] = []
chunks_read id r (e ∷ es) =
    let rest = chunks_read id (step id r e) es in if reads r then chunk_at e ++ rest else rest

-- The stream of the connection has ended while the relay ran, and the peer could be told.
unfoldable pub came_to_end : Text → Relay → List Event → Bool
came_to_end id r [] = false
came_to_end id r (e ∷ es) =
    let rest = came_to_end id (step id r e) es in (reads r && ends_at e) || rest

unfoldable pub is_eof : Frame → Bool
is_eof f = text_eq f.frame_type frame_eof

unfoldable pub has_eof : List Frame → Bool
unfolding is_eof
has_eof [] = false
has_eof (f ∷ fs) = is_eof f || has_eof fs

pub has_eof-append : (fs gs : List Frame) → has_eof (fs ++ gs) ≡ (has_eof fs || has_eof gs)
unfolding has_eof
has_eof-append [] gs = refl
has_eof-append (f ∷ fs) gs = ground (arith, has_eof-append fs gs)

-- The frames that a step sends.
record Sent (before after : List Frame) (chunks : List Text) (end : Bool) : Type 0 where
  frames : List Frame
  grows : after ≡ before ++ frames
  loads : payloads frames ≡ chunks
  eof : has_eof frames ≡ end

silent : (sent : List Frame) → Sent sent sent [] false
unfolding payloads has_eof
silent sent = record { frames = []; grows = sym (append-nil sent); loads = refl; eof = refl }

stops : (id : Text) (sent : List Frame) → Sent sent (sent ++ close_of id ∷ []) [] false
unfolding payloads is_data has_eof is_eof text_eq
stops id sent = record { frames = close_of id ∷ []; grows = refl; loads = refl; eof = refl }

module _ (id : Text) (r : Relay) where
  frame-Sent : (f : Frame) (w : Bool) → Sent r.sent (take_frame id f w r).sent [] false
  unfolding take_frame
  frame-Sent f w = elim (Bool-cases (text_eq f.frame_type frame_data)) [
    | inl d ↦ elim (Bool-cases w) [
      | inl o ↦ rw (d, o) (silent r.sent)
      | inr o ↦ rw (d, o) (stops id r.sent)
    ]
    | inr d ↦ elim (Bool-cases (text_eq f.frame_type frame_eof)) [
      | inl e ↦ elim (Bool-cases r.local_eof) [
        | inl l ↦ rw (d, e, l) (stops id r.sent)
        | inr l ↦ rw (d, e, l) (silent r.sent)
      ]
      | inr e ↦
          elim (Bool-cases (text_eq f.frame_type frame_close || text_eq f.frame_type frame_error)) [
            | inl x ↦ rw (d, e, x) (stops id r.sent)
            | inr x ↦ rw (d, e, x) (silent r.sent)
          ]
    ]
  ]

  -- Whether the relay still reads or not, an event of another kind adds nothing of the connection.
  quiet_lem :
      {after : List Frame}
      → Sent r.sent after [] false
      → Sent r.sent after (if not r.local_eof then [] else []) (not r.local_eof && false)
  quiet_lem s = elim (Bool-cases r.local_eof) [ inl l ↦ rw l s | inr l ↦ rw l s ]

  reading-Sent :
      (chunk : Text)
      → Sent r.sent
          (live_step id (read_chunk chunk) r).sent
          (if not r.local_eof then chunk ∷ [] else [])
          (not r.local_eof && false)
  unfolding live_step payloads is_data has_eof is_eof text_eq
  reading-Sent chunk = elim (Bool-cases r.local_eof) [
    | inl l ↦ rw l (silent r.sent)
    | inr l ↦ rw l (record {
      frames = data_of id data_binary chunk ∷ [];
      grows = refl;
      loads = refl;
      eof = refl;
    })
  ]

  told-Sent :
      (after tail : List Frame)
      → after ≡ r.sent ++ eof_of id ∷ tail
      → payloads tail ≡ []
      → Sent r.sent after [] true
  unfolding payloads is_data has_eof is_eof text_eq
  told-Sent after tail e quiet = record {
    frames = eof_of id ∷ tail;
    grows = e;
    loads = quiet;
    eof = refl;
  }

  ending-Sent : (ok : Bool) → Sent r.sent (local_end id ok r).sent [] ok
  unfolding local_end payloads is_data text_eq
  ending-Sent false = stops id r.sent
  ending-Sent true = elim (Bool-cases r.remote_eof) [
    | inl e ↦ rw e (told-Sent _ (close_of id ∷ []) (append_assoc r.sent (eof_of id ∷ []) _) refl)
    | inr e ↦ rw e (told-Sent _ [] refl refl)
  ]

  end-Sent :
      (ok : Bool)
      → Sent r.sent
          (live_step id (read_eof ok) r).sent
          (if not r.local_eof then [] else [])
          (not r.local_eof && ok)
  unfolding live_step
  end-Sent ok = elim (Bool-cases r.local_eof) [
    | inl l ↦ rw l (silent r.sent)
    | inr l ↦ rw l (ending-Sent ok)
  ]

  live-Sent :
      (e : Event)
      → Sent r.sent
          (live_step id e r).sent
          (if not r.local_eof then chunk_at e else [])
          (not r.local_eof && ends_at e)
  unfolding live_step
  live-Sent context_done = quiet_lem (stops id r.sent)
  live-Sent session_done = quiet_lem (stops id r.sent)
  live-Sent read_failed = quiet_lem (stops id r.sent)
  live-Sent (read_chunk chunk) = reading-Sent chunk
  live-Sent (read_eof ok) = end-Sent ok
  live-Sent (received f w) = quiet_lem (frame-Sent f w)
  live-Sent (idle_fired true) = quiet_lem (stops id r.sent)
  live-Sent (idle_fired false) = quiet_lem (silent r.sent)

-- The step of a relay, that runs or does not.
step-Sent :
    (id : Text) (r : Relay) (e : Event)
    → Sent r.sent (step id r e).sent (if reads r then chunk_at e else []) (reads r && ends_at e)
unfolding step
step-Sent id r e = at r.running
  where
    at :
        (b : Bool)
        → Sent r.sent
            (if b then live_step id e r else r).sent
            (if b && not r.local_eof then chunk_at e else [])
            ((b && not r.local_eof) && ends_at e)
    at true = live-Sent id r e
    at false = silent r.sent

grown-payloads :
    {before after : List Frame} {chunks : List Text} {end : Bool}
    → Sent before after chunks end
    → payloads after ≡ payloads before ++ chunks
grown-payloads {before} s =
    ap payloads s.grows ∙ payloads-append before s.frames ∙ ap (λ l. payloads before ++ l) s.loads

grown-eof :
    {before after : List Frame} {chunks : List Text} {end : Bool}
    → Sent before after chunks end
    → has_eof after ≡ (has_eof before || end)
grown-eof {before} s =
    ap has_eof s.grows ∙ has_eof-append before s.frames ∙ ap (λ b. has_eof before || b) s.eof

-- The payloads that a relay sends are the chunks that it reads, in order.
pub relay_conn-chunks_read :
    (id : Text) (r : Relay) (es : List Event)
    → payloads (relay_conn id r es).sent ≡ payloads r.sent ++ chunks_read id r es
unfolding relay_conn chunks_read
relay_conn-chunks_read id r [] = sym (append-nil (payloads r.sent))
relay_conn-chunks_read id r (e ∷ es) =
    let ih = relay_conn-chunks_read id (step id r e) es in
    let one = grown-payloads (step-Sent id r e) in
    ih
    ∙ ap (λ l. l ++ chunks_read id (step id r e) es) one
    ∙ append_assoc (payloads r.sent) (if reads r then chunk_at e else []) _
    ∙ ap (λ l. payloads r.sent ++ l) (ground arith)

-- It tells the end of the stream exactly if it has come to it.
pub relay_conn-came_to_end :
    (id : Text) (r : Relay) (es : List Event)
    → has_eof (relay_conn id r es).sent ≡ (has_eof r.sent || came_to_end id r es)
unfolding relay_conn came_to_end
relay_conn-came_to_end id r [] = ground arith
relay_conn-came_to_end id r (e ∷ es) =
    let ih = relay_conn-came_to_end id (step id r e) es in
    let one = grown-eof (step-Sent id r e) in ground (arith, ih, one)
