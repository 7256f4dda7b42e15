-- ===== src/Relay/Carrying.antt =====
-- How a relay of internal/datatunnel/relay.go passes ordered frames on to its connection.
use airpc.Prelude.{
  ◌≡◌, ◌⊎◌, inl, inr, refl, sym, ◌∙◌, ap, subst, Bool, true, false, ◌||◌, not, List, [], ◌∷◌, ◌++◌,
  append_assoc, append-nil, Text, text_eq, text_eq_iff, all, if◌then◌else◌, arith, Bool-cases,
}
use airpc.Tunnel.{Frame, frame_data}
use airpc.Session.Flow.{is_data}
use airpc.Session.Flow.Counting.{payloads}
use airpc.Relay.{
  Event, context_done, session_done, read_failed, read_chunk, read_eof, received, idle_fired, Relay,
  local_end, take_frame, live_step, step, relay_conn,
}
use airpc.Relay.Reading.{is_eof, has_eof}
use airpc.Relay.Writing.{
  is_benign, frames_in, is_end, IsLast, IsOrdered, live-Stepped, step-cases, step_quiet, step_open,
  rest_quiet, rest_open, rest_closed, written_at, closes_at,
}

-- What a relay has written behind some frames.
pub record Carries (s : Relay) (fs : List Frame) (t : Relay) : Type 0 where
  pub written : t.written ≡ s.written ++ payloads fs
  pub half_closed : t.half_closed ≡ (s.half_closed || has_eof fs)

data_plain : (f : Frame) → is_data f ≡ true → (is_eof f ≡ false) × (is_end f ≡ false)
unfolding is_data is_eof is_end text_eq
data_plain f d = let e = (text_eq_iff f.frame_type frame_data).0 d in rw e (refl, refl)

-- A relay that can go on as before.
go_on :
    (s t u : Relay) (fs : List Frame)
    → t.written ≡ s.written
    → t.half_closed ≡ s.half_closed
    → Carries t fs u
    → Carries s fs u
go_on s t u fs w h c = record {
  written = c.written ∙ ap (λ l. l ++ payloads fs) w;
  half_closed = c.half_closed ∙ ap (λ b. b || has_eof fs) h;
}

-- A relay that an event leaves running.
abbrev Goes : Relay → Relay → Type 0
Goes s t =
    (t.running ≡ true)
    × (t.remote_eof ≡ false)
    × (t.written ≡ s.written)
    × (t.half_closed ≡ s.half_closed)

module _ (id : Text) (s : Relay) (on : s.running ≡ true) (no_eof : s.remote_eof ≡ false) where
  chunk-Goes : (chunk : Text) → Goes s (step id s (read_chunk chunk))
  unfolding step live_step
  chunk-Goes chunk = ground (arith, on, no_eof)

  eof-Goes : (ok : Bool) → ok ≡ true → Goes s (step id s (read_eof ok))
  unfolding step live_step local_end
  eof-Goes ok h = ground (arith, on, no_eof, h)

  timer-Goes : (expired : Bool) → not expired ≡ true → Goes s (step id s (idle_fired expired))
  unfolding step live_step
  timer-Goes expired h = ground (arith, on, no_eof, h)

  data_goes :
      (f : Frame) (w : Bool)
      → is_data f ≡ true
      → w ≡ true
      → let t = step id s (received f w) in
        (t.running ≡ true)
        × (t.remote_eof ≡ false)
        × (t.written ≡ s.written ++ f.payload ∷ [])
        × (t.half_closed ≡ s.half_closed)
  unfolding step live_step take_frame is_data
  data_goes f w d h = ground (arith, on, no_eof, h, d)

  -- The end of the stream half-closes the connection.
  end_closes :
      (f : Frame) (w : Bool)
      → is_data f ≡ false
      → is_eof f ≡ true
      → (step id s (received f w)).half_closed ≡ true
  end_closes f w d e = elim (step-cases id s (received f w)) [
    | inl (r, same) ↦
        let live = (live-Stepped id s (received f w)).half in
        ap (λ (t : Relay). t.half_closed) same ∙ ground (arith, live, d, e)
    | inr (off, same) ↦ absurd (ground (arith, on, off))
  ]

-- The case of a frame that is no data: the end of the stream or the close.
last_frame :
    (id : Text) (s : Relay) (f : Frame) (w : Bool) (es : List Event)
    → s.running ≡ true
    → s.remote_eof ≡ false
    → is_data f ≡ false
    → payloads (frames_in es) ≡ []
    → (is_eof f ≡ true) ⊎ (has_eof (frames_in es) ≡ false)
    → Carries s (f ∷ frames_in es) (relay_conn id (step id s (received f w)) es)
unfolding payloads has_eof
last_frame id s f w es on no_eof d quiet ending =
    let t = step id s (received f w) in
    let no_write : written_at (received f w) ≡ [] = ground (arith, d) in
    record {
      written =
          rest_quiet id t es quiet
          ∙ step_quiet id s (received f w) no_write
          ∙ sym (append-nil s.written)
          ∙ ap (λ l. s.written ++ l) (sym (ground (arith, d, quiet)));
      half_closed = elim (Bool-cases (is_eof f)) [
        | inl e ↦ rest_closed id t es (end_closes id s on no_eof f w d e) ∙ ground (arith, e)
        | inr e ↦
            let open_ : has_eof (frames_in es) ≡ false = ground (arith, ending, e) in
            let none_closes : closes_at (received f w) ≡ false = ground (arith, e) in
            rest_open id t es open_
            ∙ step_open id s (received f w) none_closes
            ∙ ground (arith, e, open_)
      ];
    }

-- What the order of frames says of the first.
data-IsOrdered :
    (f : Frame) (fs : List Frame) → is_data f ≡ true → IsOrdered (f ∷ fs) → IsOrdered fs
unfolding IsOrdered
data-IsOrdered f fs d o = subst (λ b. if b then IsOrdered fs else IsLast f fs) d o

ordered-IsLast :
    (f : Frame) (fs : List Frame) → is_data f ≡ false → IsOrdered (f ∷ fs) → IsLast f fs
unfolding IsOrdered
ordered-IsLast f fs d o = subst (λ b. if b then IsOrdered fs else IsLast f fs) d o

first_data :
    (s t u : Relay) (f : Frame) (fs : List Frame)
    → is_data f ≡ true
    → t.written ≡ s.written ++ f.payload ∷ []
    → t.half_closed ≡ s.half_closed
    → Carries t fs u
    → Carries s (f ∷ fs) u
unfolding payloads has_eof
first_data s t u f fs d w h c = record {
  written =
      c.written
      ∙ ap (λ l. l ++ payloads fs) w
      ∙ append_assoc s.written (f.payload ∷ []) (payloads fs)
      ∙ ap (λ l. s.written ++ l) (sym (ground (arith, d)));
  half_closed =
      c.half_closed
      ∙ ap (λ b. b || has_eof fs) h
      ∙ ap (λ b. s.half_closed || b) (sym (ground (arith, (data_plain f d).0)));
}

pub carries :
    (id : Text) (s : Relay) (es : List Event)
    → s.running ≡ true
    → s.remote_eof ≡ false
    → all is_benign es ≡ true
    → IsOrdered (frames_in es)
    → Carries s (frames_in es) (relay_conn id s es)
unfolding relay_conn frames_in is_benign payloads has_eof
carries id s [] on no_eof b o = record {
  written = sym (append-nil s.written);
  half_closed = ground arith;
}
carries id s (context_done ∷ es) on no_eof b o = absurd (ground arith)
carries id s (session_done ∷ es) on no_eof b o = absurd (ground arith)
carries id s (read_failed ∷ es) on no_eof b o = absurd (ground arith)
carries id s (read_chunk chunk ∷ es) on no_eof b o =
    let t = step id s (read_chunk chunk) in
    let (r, n, w, h) = chunk-Goes id s on no_eof chunk in
    go_on s t (relay_conn id t es) (frames_in es) w h (carries id t es r n (ground arith) o)
carries id s (read_eof ok ∷ es) on no_eof b o =
    let t = step id s (read_eof ok) in
    let (r, n, w, h) = eof-Goes id s on no_eof ok (ground arith) in
    go_on s t (relay_conn id t es) (frames_in es) w h (carries id t es r n (ground arith) o)
carries id s (idle_fired expired ∷ es) on no_eof b o =
    let t = step id s (idle_fired expired) in
    let (r, n, w, h) = timer-Goes id s on no_eof expired (ground arith) in
    go_on s t (relay_conn id t es) (frames_in es) w h (carries id t es r n (ground arith) o)
carries id s (received f w ∷ es) on no_eof b o = elim (Bool-cases (is_data f)) [
  | inl d ↦
      let t = step id s (received f w) in
      let (r, n, wr, h) = data_goes id s on no_eof f w d (ground arith) in
      first_data s t (relay_conn id t es) f (frames_in es) d wr h
        (carries id t es r n (ground arith) (data-IsOrdered f (frames_in es) d o))
  | inr d ↦
      let (quiet, ending) = ordered-IsLast f (frames_in es) d o in
      last_frame id s f w es on no_eof d quiet ending
]
