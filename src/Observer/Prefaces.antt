-- ===== src/Observer/Prefaces.antt =====
-- The check of the client's preface in `parseClient` of internal/grpcobs/observer.go, and what a parser
-- reads of its feed. The preface is a constant of package http2, so it is an argument.
use airpc.Prelude.{
  ℕ, zero, suc, ◌-◌, ◌≤◌, ◌<◌, ◌≡◌, refl, sym, ◌∙◌, ap, Bool, true, false, Option, none, some, [],
  ◌∷◌, ◌++◌, Text, text_eq, length, take, drop, leb, has_prefix, arith, if◌then◌else◌,
}
use airpc.Observer.Feed.{Pipe, Reading, got, eof, waiting, read_into, read}
use airpc.Observer.Refines.{Stream, Does, delivers, stops, view, read-Does}

abbrev behind : Text → Option Text → Option Text
behind bytes none = none
behind bytes (some more_bytes) = some (bytes ++ more_bytes)

-- `io.ReadFull` into a buffer of `n` bytes; the result is `none` if the reader ends, or waits, before.
-- Each round reads a byte at least, so that `n` rounds are enough.
unfoldable pub read_full : ℕ → ℕ → Pipe → Option Text × Pipe
unfolding read
read_full fuel zero p = (some [], p)
read_full zero (suc n) p = (none, p)
read_full (suc fuel) (suc n) p =
    let q = (read (suc n) p).1 in
    elim (read (suc n) p).0 [
      | got bytes ↦
          let full = read_full fuel (suc n - length bytes) q in (behind bytes full.0, full.1)
      | eof ↦ (none, q)
      | waiting ↦ (none, q)
    ]

abbrev is_preface : Text → Option Text → Bool
is_preface preface (some bytes) = text_eq bytes preface
is_preface preface none = false

-- The beginning of `parseClient`: has the client sent the preface, and what is left to read?
unfoldable pub read_preface : Text → Pipe → Bool × Pipe
unfolding read_full
read_preface preface p =
    let (head, q) = read_full (length preface) (length preface) p in (is_preface preface head, q)

-- What a call of `Read` replies, and the bytes that it leaves.
data Outcome (s : Stream) (n : ℕ) (r : Reading) (t : Stream) : Type 0 where
  some_bytes :
      (out : Text)
      → r ≡ got out
      → s.pending ≡ out ++ t.pending
      → 0 < length out
      → length out ≤ n
      → Outcome s n r t
  no_bytes :
      s.pending ≡ [] → r ≡ (if s.closed then eof else waiting) → t.pending ≡ [] → Outcome s n r t

outcome : (s t : Stream) (n : ℕ) (r : Reading) → Does s (read_into n) (some r) t → Outcome s n r t
outcome s t n r (delivers _ out rest _ e pos le k) =
    some_bytes out refl (e ∙ ap (λ (u : Stream). out ++ u.pending) (sym k)) pos le
outcome s t n r (stops _ _ _ e k j) = no_bytes e k (ap (λ (u : Stream). u.pending) j ∙ e)

read-outcome :
    (p : Pipe) (n : ℕ) → Outcome (view p) (suc n) (read (suc n) p).0 (view (read (suc n) p).1)
read-outcome p n = outcome _ _ _ _ (read-Does p (suc n) (omega arith))

-- What `ReadFull` is to give on the bytes of a pipe.
abbrev full_of : ℕ → Text → Option Text
full_of n s = if leb n (length s) then some (take n s) else none

full_of-append :
    (out s : Text) (n : ℕ)
    → length out ≤ n
    → full_of n (out ++ s) ≡ behind out (full_of (n - length out) s)
full_of-append [] s n h = let e : n - 0 ≡ n = omega arith in rw e (ground arith)
full_of-append (c ∷ out) s zero h = absurd (omega arith)
full_of-append (c ∷ out) s (suc n) h =
    let e : suc n - suc (length out) ≡ n - length out = omega arith in
    let ih = full_of-append out s n (omega arith) in rw e (ground (arith, ih))

drop-append_of :
    (out s : Text) (n : ℕ) → length out ≤ n → drop n (out ++ s) ≡ drop (n - length out) s
drop-append_of [] s n h = let e : n - 0 ≡ n = omega arith in rw e refl
drop-append_of (c ∷ out) s zero h = absurd (omega arith)
drop-append_of (c ∷ out) s (suc n) h =
    let e : suc n - suc (length out) ≡ n - length out = omega arith in
    rw e (drop-append_of out s n (omega arith))

read_full_got :
    (fuel n : ℕ) (p : Pipe) (out : Text)
    → (read (suc n) p).0 ≡ got out
    → read_full (suc fuel) (suc n) p ≡ (
      behind out (read_full fuel (suc n - length out) (read (suc n) p).1).0,
      (read_full fuel (suc n - length out) (read (suc n) p).1).1,
    )
unfolding read_full
read_full_got fuel n p out e = rw (e, read_full) refl

read_full_stuck :
    (fuel n : ℕ) (p : Pipe) (b : Bool)
    → (read (suc n) p).0 ≡ (if b then eof else waiting)
    → read_full (suc fuel) (suc n) p ≡ (none, (read (suc n) p).1)
unfolding read_full
read_full_stuck fuel n p true e = rw (e, read_full) refl
read_full_stuck fuel n p false e = rw (e, read_full) refl

-- `ReadFull` gives the first bytes, however they are cut into chunks, and leaves the others.
pub read_full-take :
    (fuel n : ℕ) (p : Pipe)
    → n ≤ fuel
    → ((read_full fuel n p).0 ≡ full_of n (view p).pending)
      × ((view (read_full fuel n p).1).pending ≡ drop n (view p).pending)
unfolding read_full
read_full-take fuel zero p h = (ground arith, refl)
read_full-take zero (suc n) p h = absurd (omega arith)
read_full-take (suc fuel) (suc n) p h = elim (read-outcome p n) [
  | some_bytes out r e pos le ↦
      let q = (read (suc n) p).1 in
      let ih = read_full-take fuel (suc n - length out) q (omega arith) in
      rw (read_full_got fuel n p out r, e)
        (
          ap (behind out) ih.0 ∙ sym (full_of-append out (view q).pending (suc n) le),
          ih.1 ∙ sym (drop-append_of out (view q).pending (suc n) le),
        )
  | no_bytes e r none_left ↦
      rw (read_full_stuck fuel n p (view p).closed r, e) (ground arith, none_left)
]

full_of-has_prefix :
    (preface s : Text) → is_preface preface (full_of (length preface) s) ≡ has_prefix s preface
unfolding has_prefix text_eq
full_of-has_prefix [] s = ground arith
full_of-has_prefix (c ∷ ps) [] = ground arith
full_of-has_prefix (c ∷ ps) (d ∷ s) = ground (arith, full_of-has_prefix ps s)

-- The preface is found exactly if the bytes begin with it, and the framer goes on behind it.
pub read_preface-has_prefix :
    (preface : Text) (p : Pipe)
    → ((read_preface preface p).0 ≡ has_prefix (view p).pending preface)
      × ((view (read_preface preface p).1).pending ≡ drop (length preface) (view p).pending)
unfolding read_preface
read_preface-has_prefix preface p =
    let full = read_full-take (length preface) (length preface) p (omega arith) in
    (rw (full.0, read_preface) (full_of-has_prefix preface (view p).pending), full.1)
