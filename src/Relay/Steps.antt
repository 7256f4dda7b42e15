-- ===== src/Relay/Steps.antt =====
-- Every step of a relay of internal/datatunnel/relay.go keeps the order of what it sends.
use airpc.Prelude.{
  suc, ◌≡◌, ◌⊎◌, inl, inr, refl, ◌∙◌, ap, Bool, true, false, ◌||◌, List, [], ◌∷◌, ◌++◌,
  append_assoc, Text, text_eq, if◌then◌else◌, Bool-cases,
}
use airpc.Tunnel.{Frame, frame_data, frame_eof, frame_close, frame_error, data_binary}
use airpc.Session.{data_of, eof_of, close_of}
use airpc.Relay.{
  Event, context_done, session_done, read_failed, read_chunk, read_eof, received, idle_fired, Relay,
  stop, local_end, take_frame, live_step, step, relay_conn,
}
use airpc.Relay.Order.{
  Ending, flowing, half, cut, over, data_frames, IsRelaying, plain_sent, stop-IsRelaying,
  chunk-IsRelaying,
}

-- The ending depends on two flags only.
same-Ending :
    (id : Text) (r s : Relay) (tail : List Frame)
    → s.running ≡ r.running
    → s.local_eof ≡ r.local_eof
    → Ending id r tail
    → Ending id s tail
same-Ending id r s tail a b (flowing h l) = flowing (a ∙ h) (b ∙ l)
same-Ending id r s tail a b (half h l) = half (a ∙ h) (b ∙ l)
same-Ending id r s tail a b (cut h) = cut (a ∙ h)
same-Ending id r s tail a b (over h) = over (a ∙ h)

written-IsRelaying :
    (id payload : Text) (r : Relay)
    → IsRelaying id r
    → IsRelaying id (record r { written = r.written ++ payload ∷ []; acked = suc r.acked })
written-IsRelaying id payload r v = record {
  chunks = v.chunks;
  tail = v.tail;
  sent_is = v.sent_is;
  ending = same-Ending id r _ v.tail refl refl v.ending;
  half_close = v.half_close;
  not_both = v.not_both;
}

remote-IsRelaying :
    (id : Text) (r : Relay)
    → (r.running ≡ false) ⊎ (r.local_eof ≡ false)
    → IsRelaying id r
    → IsRelaying id (record r { remote_eof = true; half_closed = true })
remote-IsRelaying id r one v = record {
  chunks = v.chunks;
  tail = v.tail;
  sent_is = v.sent_is;
  ending = same-Ending id r _ v.tail refl refl v.ending;
  half_close = refl;
  not_both = elim one [ inl a ↦ inl a | inr b ↦ inr (rw b refl) ];
}

local-IsRelaying :
    (id : Text) (ok : Bool) (r : Relay)
    → r.running ≡ true
    → r.local_eof ≡ false
    → IsRelaying id r
    → IsRelaying id (local_end id ok r)
unfolding local_end
local-IsRelaying id false r h l v = record {
  chunks = v.chunks;
  tail = close_of id ∷ [];
  sent_is = ap (λ s. s ++ close_of id ∷ []) (plain_sent id r v h l);
  ending = cut refl;
  half_close = v.half_close;
  not_both = inl refl;
}
local-IsRelaying id true r h l v =
    let sent = ap (λ s. s ++ eof_of id ∷ []) (plain_sent id r v h l) in
    elim (Bool-cases r.remote_eof) [
      | inl e ↦ rw e (record {
        chunks = v.chunks;
        tail = eof_of id ∷ close_of id ∷ [];
        sent_is =
            ap (λ s. s ++ close_of id ∷ []) sent
            ∙ append_assoc (data_frames id v.chunks) (eof_of id ∷ []) (close_of id ∷ []);
        ending = over refl;
        half_close = v.half_close ∙ e;
        not_both = inl refl;
      })
      | inr e ↦ rw e (record {
        chunks = v.chunks;
        tail = eof_of id ∷ [];
        sent_is = sent;
        ending = half h refl;
        half_close = v.half_close ∙ e;
        not_both = inr refl;
      })
    ]

remote_end :
    (id : Text) (r : Relay) (b : Bool)
    → r.local_eof ≡ b
    → r.running ≡ true
    → IsRelaying id r
    → IsRelaying id (
        if b
        then stop id (record r { remote_eof = true; half_closed = true })
        else record r { remote_eof = true; half_closed = true })
remote_end id r true l h v = remote-IsRelaying id (stop id r) (inl refl) (stop-IsRelaying id r h v)
remote_end id r false l h v = remote-IsRelaying id r (inr l) v

frame-IsRelaying :
    (id : Text) (f : Frame) (writable : Bool) (r : Relay)
    → r.running ≡ true
    → IsRelaying id r
    → IsRelaying id (take_frame id f writable r)
unfolding take_frame
frame-IsRelaying id f writable r h v = elim (Bool-cases (text_eq f.frame_type frame_data)) [
  | inl d ↦ elim (Bool-cases writable) [
    | inl w ↦ rw (d, w) (written-IsRelaying id f.payload r v)
    | inr w ↦ rw (d, w) (stop-IsRelaying id r h v)
  ]
  | inr d ↦ elim (Bool-cases (text_eq f.frame_type frame_eof)) [
    | inl e ↦ rw (d, e) (remote_end id r r.local_eof refl h v)
    | inr e ↦
        elim (Bool-cases (text_eq f.frame_type frame_close || text_eq f.frame_type frame_error)) [
          | inl x ↦ rw (d, e, x) (stop-IsRelaying id r h v)
          | inr x ↦ rw (d, e, x) v
        ]
  ]
]

chunk_step :
    (id chunk : Text) (r : Relay) (b : Bool)
    → r.local_eof ≡ b
    → r.running ≡ true
    → IsRelaying id r
    → IsRelaying id
        (if b then r else record r { sent = r.sent ++ data_of id data_binary chunk ∷ [] })
chunk_step id chunk r true l h v = v
chunk_step id chunk r false l h v = chunk-IsRelaying id chunk r h l v

eof_step :
    (id : Text) (ok : Bool) (r : Relay) (b : Bool)
    → r.local_eof ≡ b
    → r.running ≡ true
    → IsRelaying id r
    → IsRelaying id (if b then r else local_end id ok r)
eof_step id ok r true l h v = v
eof_step id ok r false l h v = local-IsRelaying id ok r h l v

live-IsRelaying :
    (id : Text) (e : Event) (r : Relay)
    → r.running ≡ true
    → IsRelaying id r
    → IsRelaying id (live_step id e r)
unfolding live_step
live-IsRelaying id context_done r h v = stop-IsRelaying id r h v
live-IsRelaying id session_done r h v = stop-IsRelaying id r h v
live-IsRelaying id read_failed r h v = stop-IsRelaying id r h v
live-IsRelaying id (read_chunk chunk) r h v = chunk_step id chunk r r.local_eof refl h v
live-IsRelaying id (read_eof ok) r h v = eof_step id ok r r.local_eof refl h v
live-IsRelaying id (received f writable) r h v = frame-IsRelaying id f writable r h v
live-IsRelaying id (idle_fired true) r h v = stop-IsRelaying id r h v
live-IsRelaying id (idle_fired false) r h v = v

step-IsRelaying :
    (id : Text) (r : Relay) (e : Event) (b : Bool)
    → r.running ≡ b
    → IsRelaying id r
    → IsRelaying id (if b then live_step id e r else r)
step-IsRelaying id r e true h v = live-IsRelaying id e r h v
step-IsRelaying id r e false h v = v

-- Whatever happens on the two sides, a relay sends its session the chunks of the connection as data,
-- in order, then the end of the stream, if the connection has come to it, and one close frame when it
-- is over. It half-closes the connection exactly if the peer's stream has ended, and it is over once
-- both have.
pub relay_conn-IsRelaying :
    (id : Text) (r : Relay) (es : List Event) → IsRelaying id r → IsRelaying id (relay_conn id r es)
unfolding relay_conn step
relay_conn-IsRelaying id r [] v = v
relay_conn-IsRelaying id r (e ∷ es) v =
    relay_conn-IsRelaying id (step id r e) es (step-IsRelaying id r e r.running refl v)
