-- ===== src/Relay/Carried.antt =====
-- Both ends of a TCP connection relayed by internal/datatunnel/relay.go: what one end reads, the other
-- writes.
use airpc.Prelude.{
  ◌≡◌, ◌⊎◌, inl, inr, refl, sym, ◌∙◌, ap, subst, Bool, true, false, not, List, [], ◌∷◌, ◌++◌, Text,
  text_eq, text_eq_iff, all, arith, Bool-cases,
}
use airpc.Tunnel.{Frame, frame_close, frame_error}
use airpc.Session.Flow.{is_data}
use airpc.Session.Flow.Counting.{payloads}
use airpc.Relay.{
  Event, context_done, session_done, read_failed, read_chunk, read_eof, received, idle_fired, Relay,
  new_relay, take_frame, live_step, step, relay_conn,
}
use airpc.Relay.Order.{Ending, flowing, half, cut, over, data_frames}
use airpc.Relay.Steps.{relay_conn-IsRelaying}
use airpc.Relay.Reading.{
  chunks_read, came_to_end, is_eof, has_eof, relay_conn-chunks_read, relay_conn-came_to_end,
}
use airpc.Relay.Writing.{is_benign, frames_in, is_end, has_end, IsOrdered}
use airpc.Relay.Carrying.{carries}

frames-IsOrdered :
    (id : Text) (cs : List Text) (tail : List Frame)
    → IsOrdered tail
    → IsOrdered (data_frames id cs ++ tail)
unfolding IsOrdered is_data text_eq
frames-IsOrdered id [] tail o = o
frames-IsOrdered id (c ∷ cs) tail o = frames-IsOrdered id cs tail o

tail-IsOrdered : (id : Text) (r : Relay) (tail : List Frame) → Ending id r tail → IsOrdered tail
unfolding IsOrdered is_data is_eof has_eof payloads text_eq
tail-IsOrdered id r _ (flowing a b) = tt
tail-IsOrdered id r _ (half a b) = (refl, inl refl)
tail-IsOrdered id r _ (cut a) = (refl, inr refl)
tail-IsOrdered id r _ (over a) = (refl, inl refl)

has_end-append : (fs gs : List Frame) → has_end gs ≡ true → has_end (fs ++ gs) ≡ true
unfolding has_end
has_end-append [] gs h = h
has_end-append (f ∷ fs) gs h = ground (arith, has_end-append fs gs h)

tail_end :
    (id : Text) (r : Relay) (tail : List Frame)
    → Ending id r tail
    → (r.running ≡ true) ⊎ (has_end tail ≡ true)
unfolding has_end is_end text_eq
tail_end id r _ (flowing a b) = inl a
tail_end id r _ (half a b) = inl a
tail_end id r _ (cut a) = inr refl
tail_end id r _ (over a) = inr refl

stays_stopped :
    (id : Text) (s : Relay) (es : List Event)
    → s.running ≡ false
    → (relay_conn id s es).running ≡ false
unfolding relay_conn step
stays_stopped id s [] h = h
stays_stopped id s (e ∷ es) h =
    let same : step id s e ≡ s = ground (arith, h) in
    ap (λ x. (relay_conn id x es).running) same ∙ stays_stopped id s es h

end_frame : (f : Frame) → is_end f ≡ true → (is_data f ≡ false) × (is_eof f ≡ false)
unfolding is_data is_eof is_end text_eq
end_frame f h = elim (Bool-cases (text_eq f.frame_type frame_close)) [
  | inl c ↦ let e = (text_eq_iff f.frame_type frame_close).0 c in rw e (refl, refl)
  | inr c ↦
      let x : text_eq f.frame_type frame_error ≡ true = ground (arith, c, h) in
      let e = (text_eq_iff f.frame_type frame_error).0 x in rw e (refl, refl)
]

end_step :
    (id : Text) (s : Relay) (f : Frame) (w : Bool)
    → is_end f ≡ true
    → (step id s (received f w)).running ≡ false
unfolding step live_step take_frame is_data is_eof is_end
end_step id s f w h = let (d, e) = end_frame f h in ground (arith, d, e, h)

-- Behind a close the relay is over.
ends :
    (id : Text) (s : Relay) (es : List Event)
    → has_end (frames_in es) ≡ true
    → (relay_conn id s es).running ≡ false
unfolding relay_conn frames_in has_end
ends id s [] h = absurd (ground arith)
ends id s (context_done ∷ es) h = ends id (step id s context_done) es h
ends id s (session_done ∷ es) h = ends id (step id s session_done) es h
ends id s (read_failed ∷ es) h = ends id (step id s read_failed) es h
ends id s (read_chunk chunk ∷ es) h = ends id (step id s (read_chunk chunk)) es h
ends id s (read_eof ok ∷ es) h = ends id (step id s (read_eof ok)) es h
ends id s (idle_fired expired ∷ es) h = ends id (step id s (idle_fired expired)) es h
ends id s (received f w ∷ es) h = elim (Bool-cases (is_end f)) [
  | inl x ↦ stays_stopped id (step id s (received f w)) es (end_step id s f w x)
  | inr x ↦ ends id (step id s (received f w)) es (ground (arith, x, h))
]

-- What has come of a connection at the other end.
pub record IsCarried (chunks : List Text) (ended over : Bool) (far : Relay) : Type 0 where
  pub bytes : far.written ≡ chunks
  pub end_told : far.half_closed ≡ ended
  pub close_told : (over ≡ false) ⊎ (far.running ≡ false)

-- However the events of one end fall: once the frames that its relay sends have come in at the other end,
-- between any reads there that do not fail, the other connection has been written exactly the chunks
-- that the first relay has read, in order, it is half-closed exactly if the stream of the first has come to
-- its end, and the other relay is over if the first is.
pub relay_conn-IsCarried :
    (id id' : Text) (es es' : List Event)
    → all is_benign es' ≡ true
    → frames_in es' ≡ (relay_conn id new_relay es).sent
    → IsCarried
        (chunks_read id new_relay es)
        (came_to_end id new_relay es)
        (not (relay_conn id new_relay es).running)
        (relay_conn id' new_relay es')
unfolding chunks_read payloads came_to_end has_eof
relay_conn-IsCarried id id' es es' benign same =
    let near = relay_conn id new_relay es in
    let v = relay_conn-IsRelaying id new_relay es (record {
      chunks = [];
      tail = [];
      sent_is = refl;
      ending = flowing refl refl;
      half_close = refl;
      not_both = inr refl;
    }) in
    let sent = same ∙ v.sent_is in
    let ordered =
      subst IsOrdered (sym sent)
        (frames-IsOrdered id v.chunks v.tail (tail-IsOrdered id near v.tail v.ending)) in
    let c = carries id' new_relay es' refl refl benign ordered in
    record {
      bytes = c.written ∙ ap payloads same ∙ relay_conn-chunks_read id new_relay es;
      end_told = c.half_closed ∙ ap has_eof same ∙ relay_conn-came_to_end id new_relay es;
      close_told = elim (tail_end id near v.tail v.ending) [
        | inl r ↦ inl (ap not r)
        | inr t ↦ inr (ends id' new_relay es' (ap has_end sent ∙ has_end-append _ v.tail t))
      ];
    }
