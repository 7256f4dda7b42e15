-- ===== src/Relay/Writing.antt =====
-- What a relay of internal/datatunnel/relay.go writes to its connection, of the frames that come in.
use airpc.Prelude.{
  ◌≡◌, ◌⊎◌, inl, inr, refl, sym, ◌∙◌, ap, Bool, true, false, ◌&&◌, ◌||◌, not, List, [], ◌∷◌, ◌++◌,
  append-nil, Text, text_eq, if◌then◌else◌, arith, Bool-cases,
}
use airpc.Tunnel.{Frame, frame_close, frame_error}
use airpc.Session.Flow.{is_data}
use airpc.Session.Flow.Counting.{payloads}
use airpc.Relay.{
  Event, context_done, session_done, read_failed, read_chunk, read_eof, received, idle_fired, Relay,
  local_end, take_frame, live_step, step, relay_conn,
}
use airpc.Relay.Reading.{is_eof, has_eof}

-- An event that does not cut the relay off: the connection can be read and written, and neither the
-- context nor the session ends.
unfoldable pub is_benign : Event → Bool
is_benign context_done = false
is_benign session_done = false
is_benign read_failed = false
is_benign (read_chunk chunk) = true
is_benign (read_eof ok) = ok
is_benign (received f writable) = writable
is_benign (idle_fired expired) = not expired

-- The frames that come from the session, in order.
unfoldable pub frames_in : List Event → List Frame
frames_in [] = []
frames_in (received f writable ∷ es) = f ∷ frames_in es
frames_in (context_done ∷ es) = frames_in es
frames_in (session_done ∷ es) = frames_in es
frames_in (read_failed ∷ es) = frames_in es
frames_in (read_chunk chunk ∷ es) = frames_in es
frames_in (read_eof ok ∷ es) = frames_in es
frames_in (idle_fired expired ∷ es) = frames_in es

unfoldable pub is_end : Frame → Bool
is_end f = text_eq f.frame_type frame_close || text_eq f.frame_type frame_error

unfoldable pub has_end : List Frame → Bool
unfolding is_end
has_end [] = false
has_end (f ∷ fs) = is_end f || has_end fs

-- A frame behind which there is no more data, and behind a close no end of the stream.
abbrev pub IsLast : Frame → List Frame → Type 0
IsLast f fs = (payloads fs ≡ []) × ((is_eof f ≡ true) ⊎ (has_eof fs ≡ false))

-- Data, then the end of the stream or the close.
unfoldable pub IsOrdered : List Frame → Type 0
IsOrdered [] = Unit
IsOrdered (f ∷ fs) = if is_data f then IsOrdered fs else IsLast f fs

-- What an event adds to the bytes of the connection, and whether it half-closes it.
abbrev pub written_at : Event → List Text
written_at (received f writable) = if is_data f && writable then f.payload ∷ [] else []
written_at _ = []

abbrev pub closes_at : Event → Bool
closes_at (received f writable) = not (is_data f) && is_eof f
closes_at _ = false

-- The fields of a relay behind an event.
pub record Stepped (s : Relay) (e : Event) (t : Relay) : Type 0 where
  pub written : t.written ≡ s.written ++ written_at e
  pub half : t.half_closed ≡ (s.half_closed || closes_at e)

same-Stepped :
    (s t : Relay) (e : Event)
    → t.written ≡ s.written
    → t.half_closed ≡ s.half_closed
    → written_at e ≡ []
    → closes_at e ≡ false
    → Stepped s e t
same-Stepped s t e w h a b = record {
  written = w ∙ sym (append-nil s.written) ∙ ap (λ l. s.written ++ l) (sym a);
  half = ground (arith, h, b);
}

pub live-Stepped : (id : Text) (s : Relay) (e : Event) → Stepped s e (live_step id e s)
unfolding live_step local_end take_frame is_data is_eof
live-Stepped id s context_done = same-Stepped s _ context_done refl refl refl refl
live-Stepped id s session_done = same-Stepped s _ session_done refl refl refl refl
live-Stepped id s read_failed = same-Stepped s _ read_failed refl refl refl refl
live-Stepped id s (read_chunk chunk) =
    same-Stepped s _ (read_chunk chunk) (ground arith) (ground arith) refl refl
live-Stepped id s (read_eof ok) =
    same-Stepped s _ (read_eof ok) (ground arith) (ground arith) refl refl
live-Stepped id s (received f w) = record {
  written = ground (arith, append-nil s.written);
  half = ground arith;
}
live-Stepped id s (idle_fired expired) =
    same-Stepped s _ (idle_fired expired) (ground arith) (ground arith) refl refl

pub step-cases :
    (id : Text) (s : Relay) (e : Event)
    → ((s.running ≡ true) × (step id s e ≡ live_step id e s))
      ⊎ ((s.running ≡ false) × (step id s e ≡ s))
unfolding step
step-cases id s e = elim (Bool-cases s.running) [
  | inl on ↦ inl (on, ground arith)
  | inr off ↦ inr (off, ground arith)
]

-- Events without data write nothing, and events without an end of the stream do not half-close.
quiet_data :
    (e : Event) (es : List Event)
    → payloads (frames_in (e ∷ es)) ≡ []
    → (written_at e ≡ []) × (payloads (frames_in es) ≡ [])
unfolding frames_in payloads
quiet_data context_done es h = (refl, h)
quiet_data session_done es h = (refl, h)
quiet_data read_failed es h = (refl, h)
quiet_data (read_chunk chunk) es h = (refl, h)
quiet_data (read_eof ok) es h = (refl, h)
quiet_data (idle_fired expired) es h = (refl, h)
quiet_data (received f w) es h = elim (Bool-cases (is_data f)) [
  | inl d ↦ absurd (ground (arith, d, h))
  | inr d ↦ (ground (arith, d), ground (arith, d, h))
]

quiet_eof :
    (e : Event) (es : List Event)
    → has_eof (frames_in (e ∷ es)) ≡ false
    → (closes_at e ≡ false) × (has_eof (frames_in es) ≡ false)
unfolding frames_in has_eof
quiet_eof context_done es h = (refl, h)
quiet_eof session_done es h = (refl, h)
quiet_eof read_failed es h = (refl, h)
quiet_eof (read_chunk chunk) es h = (refl, h)
quiet_eof (read_eof ok) es h = (refl, h)
quiet_eof (idle_fired expired) es h = (refl, h)
quiet_eof (received f w) es h = (ground (arith, h), ground (arith, h))

pub step_quiet :
    (id : Text) (s : Relay) (e : Event) → written_at e ≡ [] → (step id s e).written ≡ s.written
step_quiet id s e q = elim (step-cases id s e) [
  | inl (on, same) ↦
      ap (λ (t : Relay). t.written) same
      ∙ (live-Stepped id s e).written
      ∙ ap (λ l. s.written ++ l) q
      ∙ append-nil s.written
  | inr (off, same) ↦ ap (λ (t : Relay). t.written) same
]

pub step_open :
    (id : Text) (s : Relay) (e : Event)
    → closes_at e ≡ false
    → (step id s e).half_closed ≡ s.half_closed
step_open id s e q = elim (step-cases id s e) [
  | inl (on, same) ↦
      let live = (live-Stepped id s e).half in
      ap (λ (t : Relay). t.half_closed) same ∙ ground (arith, live, q)
  | inr (off, same) ↦ ap (λ (t : Relay). t.half_closed) same
]

step_closed :
    (id : Text) (s : Relay) (e : Event) → s.half_closed ≡ true → (step id s e).half_closed ≡ true
step_closed id s e q = elim (step-cases id s e) [
  | inl (on, same) ↦
      let live = (live-Stepped id s e).half in
      ap (λ (t : Relay). t.half_closed) same ∙ ground (arith, live, q)
  | inr (off, same) ↦ ap (λ (t : Relay). t.half_closed) same ∙ q
]

pub rest_quiet :
    (id : Text) (s : Relay) (es : List Event)
    → payloads (frames_in es) ≡ []
    → (relay_conn id s es).written ≡ s.written
unfolding relay_conn
rest_quiet id s [] h = refl
rest_quiet id s (e ∷ es) h =
    let (q, rest) = quiet_data e es h in rest_quiet id (step id s e) es rest ∙ step_quiet id s e q

pub rest_open :
    (id : Text) (s : Relay) (es : List Event)
    → has_eof (frames_in es) ≡ false
    → (relay_conn id s es).half_closed ≡ s.half_closed
unfolding relay_conn
rest_open id s [] h = refl
rest_open id s (e ∷ es) h =
    let (q, rest) = quiet_eof e es h in rest_open id (step id s e) es rest ∙ step_open id s e q

pub rest_closed :
    (id : Text) (s : Relay) (es : List Event)
    → s.half_closed ≡ true
    → (relay_conn id s es).half_closed ≡ true
unfolding relay_conn
rest_closed id s [] h = h
rest_closed id s (e ∷ es) h = rest_closed id (step id s e) es (step_closed id s e h)
