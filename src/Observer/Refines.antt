-- ===== src/Observer/Refines.antt =====
-- What a feed and its reader in internal/grpcobs/observer.go promise: a stream of bytes, of which chunks
-- are no longer seen, that may choke on a chunk but never loses, repeats or reorders a byte before that.
use airpc.Prelude.{
  ℕ, zero, suc, ◌≤◌, ◌<◌, ◌≡◌, inl, inr, refl, sym, ◌∙◌, ap, Bool, true, false, Option, none, some,
  List, [], ◌∷◌, ◌++◌, append_assoc, append-nil, Text, length, take, drop, ltb, All, arith,
  Bool-cases, if◌then◌else◌,
}
use airpc.Observer.Feed.{
  Pipe, Reading, got, eof, waiting, Call, put_bytes, close_done, read_into, put, next_chunk, copied,
  read, call, run, feed_queue_size,
}

-- The bytes that are put and not yet read.
pub record Stream : Type 0 where
  pub pending : Text
  pub dead : Bool
  pub closed : Bool

-- What a call may do to a stream and reply.
pub data Does (s : Stream) : Call → Option Reading → Stream → Type 0 where
  takes_in :
      (p : Text) (t : Stream)
      → s.dead ≡ false
      → t ≡ record s { pending = s.pending ++ p }
      → Does s (put_bytes p) none t
  chokes :
      (p : Text) (t : Stream)
      → s.dead ≡ false
      → t ≡ record s { dead = true }
      → Does s (put_bytes p) none t
  ignores : (p : Text) (t : Stream) → s.dead ≡ true → t ≡ s → Does s (put_bytes p) none t
  closes : (t : Stream) → t ≡ record s { closed = true } → Does s close_done none t
  delivers :
      (n : ℕ) (out rest : Text) (t : Stream)
      → s.pending ≡ out ++ rest
      → 0 < length out
      → length out ≤ n
      → t ≡ record s { pending = rest }
      → Does s (read_into n) (some (got out)) t
  stops :
      (n : ℕ) (r : Reading) (t : Stream)
      → s.pending ≡ []
      → r ≡ (if s.closed then eof else waiting)
      → t ≡ s
      → Does s (read_into n) (some r) t

-- A list of calls, with its replies.
pub data Runs : Stream → List Call → List (Option Reading) → Stream → Type 0 where
  nothing : (s : Stream) → Runs s [] [] s
  more :
      (s t u : Stream) (c : Call) (r : Option Reading) (cs : List Call) (rs : List (Option Reading))
      → Does s c r t
      → Runs t cs rs u
      → Runs s (c ∷ cs) (r ∷ rs) u

unfoldable pub concat : List Text → Text
concat [] = []
concat (t ∷ ts) = t ++ concat ts

-- The bytes of a pipe: those left of the chunk in hand, and the chunks in the queue.
unfoldable pub view : Pipe → Stream
unfolding concat
view p = record { pending = p.rest ++ concat p.feed.queue; dead = p.feed.dead; closed = p.done }

pub concat-append : (ts us : List Text) → concat (ts ++ us) ≡ concat ts ++ concat us
unfolding concat
concat-append [] us = refl
concat-append (t ∷ ts) us =
    ap (λ l. t ++ l) (concat-append ts us) ∙ sym (append_assoc t (concat ts) (concat us))

-- Skipping empty chunks loses no byte.
pub next_chunk_bytes :
    (rest : Text) (q : List Text)
    → (next_chunk rest q).0 ++ concat (next_chunk rest q).1 ≡ rest ++ concat q
unfolding next_chunk concat
next_chunk_bytes (c ∷ r) q = refl
next_chunk_bytes [] [] = refl
next_chunk_bytes [] (chunk ∷ q) = next_chunk_bytes chunk q

-- If no byte is left, the queue is empty.
pub next_chunk_empty :
    (rest : Text) (q : List Text) → (next_chunk rest q).0 ≡ [] → (next_chunk rest q).1 ≡ []
unfolding next_chunk
next_chunk_empty (c ∷ r) q h = cc
next_chunk_empty [] [] h = refl
next_chunk_empty [] (chunk ∷ q) h = next_chunk_empty chunk q h

pub take-drop : (n : ℕ) (s : Text) → s ≡ take n s ++ drop n s
take-drop zero s = refl
take-drop (suc n) [] = refl
take-drop (suc n) (c ∷ s) = ap (◌∷◌ c) (take-drop n s)

length-take-le : (n : ℕ) (s : Text) → length (take n s) ≤ n
length-take-le zero s = omega arith
length-take-le (suc n) [] = omega arith
length-take-le (suc n) (c ∷ s) = omega (arith, length-take-le n s)

room_bytes :
    (rest chunk : Text) (q : List Text)
    → rest ++ concat (q ++ chunk ∷ []) ≡ (rest ++ concat q) ++ chunk
unfolding concat
room_bytes rest chunk q =
    ap (λ l. rest ++ l) (concat-append q (chunk ∷ []) ∙ ap (λ l. concat q ++ l) (append-nil chunk))
    ∙ sym (append_assoc rest (concat q) chunk)

-- A buffer of `Read` is not empty.
abbrev pub IsSized : Call → Type 0
IsSized (put_bytes p) = Unit
IsSized close_done = Unit
IsSized (read_into n) = 0 < n

put-view :
    (p : Pipe) (chunk : Text)
    → Does (view p) (put_bytes chunk) none (view (record p { feed = put chunk p.feed }))
unfolding view put
put-view p chunk = elim (Bool-cases p.feed.dead) [
  | inl dead ↦ ignores chunk _ dead (ground arith)
  | inr live ↦ elim (Bool-cases (ltb (length p.feed.queue) feed_queue_size)) [
    | inl room ↦ takes_in chunk _ live (ground (arith, room_bytes p.rest chunk p.feed.queue))
    | inr full ↦ chokes chunk _ live (ground arith)
  ]
]

copied-view :
    (n : ℕ) (p : Pipe) (chunk : Text × List Text)
    → chunk.0 ++ concat chunk.1 ≡ p.rest ++ concat p.feed.queue
    → (chunk.0 ≡ [] → chunk.1 ≡ [])
    → 0 < n
    → Does (view p) (read_into n) (some (copied n chunk p).0) (view (copied n chunk p).1)
unfolding copied view concat
copied-view n p ([], q) e last pos =
    let none_left = last refl in stops n _ _ (ground arith) refl (ground arith)
copied-view zero p (c ∷ r, q) e last pos = elim pos [ ]
copied-view (suc n) p (c ∷ r, q) e last pos =
    delivers (suc n) (take (suc n) (c ∷ r)) (drop n r ++ concat q) _
      (ground (arith, take-drop n r, append_assoc (take n r) (drop n r) (concat q))) (omega arith)
      (omega (arith, length-take-le n r)) refl

pub read-Does :
    (p : Pipe) (n : ℕ) → 0 < n → Does (view p) (read_into n) (some (read n p).0) (view (read n p).1)
unfolding read
read-Does p n h =
    copied-view n p (next_chunk p.rest p.feed.queue) (next_chunk_bytes p.rest p.feed.queue)
      (next_chunk_empty p.rest p.feed.queue) h

-- Every call on a pipe does what it may do to the stream of its bytes.
pub call-Does : (p : Pipe) (c : Call) → IsSized c → Does (view p) c (call p c).0 (view (call p c).1)
unfolding call view
call-Does p (put_bytes chunk) h = put-view p chunk
call-Does p close_done h = closes _ refl
call-Does p (read_into n) h = read-Does p n h

-- A feed with its reader refines a stream of bytes: whatever calls are made on a pipe, each reply, and what
-- is left to read, is what the stream may reply and hold, for reads into buffers that are not empty.
pub run-Runs :
    (p : Pipe) (cs : List Call) → All IsSized cs → Runs (view p) cs (run p cs).0 (view (run p cs).1)
unfolding run
run-Runs p [] h = nothing _
run-Runs p (c ∷ cs) h =
    more _ (view (call p c).1) _ c _ cs _ (call-Does p c h.0) (run-Runs (call p c).1 cs h.1)
