-- ===== src/Relay/Order.antt =====
-- What a relay of internal/datatunnel/relay.go does to its session: the order of what it sends.
use airpc.Prelude.{
  ◌≡◌, ◌⊎◌, inl, inr, refl, sym, ◌∙◌, ap, true, false, ◌&&◌, List, [], ◌∷◌, ◌++◌, append_assoc,
  append-nil, Text, map, arith,
}
use airpc.Tunnel.{Frame, data_binary}
use airpc.Session.{data_of, eof_of, close_of}
use airpc.Relay.{Relay, stop}

-- What follows the data: nothing yet, the end of the stream, and the close of a relay that is over.
pub data Ending (id : Text) (r : Relay) : List Frame → Type 0 where
  flowing : r.running ≡ true → r.local_eof ≡ false → Ending id r []
  half : r.running ≡ true → r.local_eof ≡ true → Ending id r (eof_of id ∷ [])
  cut : r.running ≡ false → Ending id r (close_of id ∷ [])
  over : r.running ≡ false → Ending id r (eof_of id ∷ close_of id ∷ [])

abbrev pub data_frames : Text → List Text → List Frame
data_frames id chunks = map (λ c. data_of id data_binary c) chunks

pub record IsRelaying (id : Text) (r : Relay) : Type 0 where
  pub chunks : List Text
  pub tail : List Frame
  pub sent_is : r.sent ≡ data_frames id chunks ++ tail
  pub ending : Ending id r tail
  pub half_close : r.half_closed ≡ r.remote_eof
  pub not_both : (r.running ≡ false) ⊎ ((r.local_eof && r.remote_eof) ≡ false)

frames-append :
    (id : Text) (cs : List Text) (c : Text)
    → data_frames id (cs ++ c ∷ []) ≡ data_frames id cs ++ data_of id data_binary c ∷ []
frames-append id [] c = refl
frames-append id (d ∷ cs) c = ap (λ l. data_of id data_binary d ∷ l) (frames-append id cs c)

-- A running relay has sent data, and the end of the stream exactly if it has met it.
running_tail :
    (id : Text) (r : Relay) (tail : List Frame)
    → r.running ≡ true
    → Ending id r tail
    → ((r.local_eof ≡ false) × (tail ≡ [])) ⊎ ((r.local_eof ≡ true) × (tail ≡ eof_of id ∷ []))
running_tail id r tail h (flowing a b) = inl (b, refl)
running_tail id r tail h (half a b) = inr (b, refl)
running_tail id r tail h (cut a) = absurd (ground arith)
running_tail id r tail h (over a) = absurd (ground arith)

pub stop-IsRelaying :
    (id : Text) (r : Relay) → r.running ≡ true → IsRelaying id r → IsRelaying id (stop id r)
stop-IsRelaying id r h v = elim (running_tail id r v.tail h v.ending) [
  | inl (l, e) ↦ record {
    chunks = v.chunks;
    tail = close_of id ∷ [];
    sent_is =
        ap (λ s. s ++ close_of id ∷ []) (v.sent_is ∙ ap (λ t. data_frames id v.chunks ++ t) e)
        ∙ append_assoc (data_frames id v.chunks) [] (close_of id ∷ []);
    ending = cut refl;
    half_close = v.half_close;
    not_both = inl refl;
  }
  | inr (l, e) ↦ record {
    chunks = v.chunks;
    tail = eof_of id ∷ close_of id ∷ [];
    sent_is =
        ap (λ s. s ++ close_of id ∷ []) (v.sent_is ∙ ap (λ t. data_frames id v.chunks ++ t) e)
        ∙ append_assoc (data_frames id v.chunks) (eof_of id ∷ []) (close_of id ∷ []);
    ending = over refl;
    half_close = v.half_close;
    not_both = inl refl;
  }
]

-- The sent frames of a relay that has not met the end of the stream.
pub plain_sent :
    (id : Text) (r : Relay) (v : IsRelaying id r)
    → r.running ≡ true
    → r.local_eof ≡ false
    → r.sent ≡ data_frames id v.chunks
plain_sent id r v h l = elim (running_tail id r v.tail h v.ending) [
  | inl (l', e) ↦
      v.sent_is ∙ ap (λ t. data_frames id v.chunks ++ t) e ∙ append-nil (data_frames id v.chunks)
  | inr (l', e) ↦ absurd (ground arith)
]

pub chunk-IsRelaying :
    (id chunk : Text) (r : Relay)
    → r.running ≡ true
    → r.local_eof ≡ false
    → IsRelaying id r
    → IsRelaying id (record r { sent = r.sent ++ data_of id data_binary chunk ∷ [] })
chunk-IsRelaying id chunk r h l v = record {
  chunks = v.chunks ++ chunk ∷ [];
  tail = [];
  sent_is =
      ap (λ s. s ++ data_of id data_binary chunk ∷ []) (plain_sent id r v h l)
      ∙ sym (frames-append id v.chunks chunk)
      ∙ sym (append-nil (data_frames id (v.chunks ++ chunk ∷ [])));
  ending = flowing h l;
  half_close = v.half_close;
  not_both = v.not_both;
}
