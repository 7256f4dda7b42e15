-- ===== src/Observer/Delivery.antt =====
-- What follows for the parsers of internal/grpcobs/observer.go from the stream that a feed is: which
-- bytes they see.
use airpc.Prelude.{
  ◌≤◌, ◌≡◌, ◌↔◌, refl, sym, ◌∙◌, ap, Bool, true, false, Option, none, some, List, [], ◌∷◌, ◌++◌,
  append_assoc, Text, length, All, arith, if◌then◌else◌,
}
use airpc.Observer.Feed.{
  Feed, Reading, got, eof, waiting, Call, put_bytes, close_done, read_into, put, run, new_pipe,
}
use airpc.Observer.Refines.{
  Stream, takes_in, chokes, ignores, closes, delivers, stops, Runs, nothing, more, view, run-Runs,
  IsSized, concat,
}

-- The bytes that the relay hands over.
abbrev pub put_in : List Call → Text
put_in [] = []
put_in (put_bytes p ∷ cs) = p ++ put_in cs
put_in (close_done ∷ cs) = put_in cs
put_in (read_into n ∷ cs) = put_in cs

-- The bytes that the parser is given.
abbrev pub delivered : List (Option Reading) → Text
delivered [] = []
delivered (some (got bytes) ∷ rs) = bytes ++ delivered rs
delivered (some eof ∷ rs) = delivered rs
delivered (some waiting ∷ rs) = delivered rs
delivered (none ∷ rs) = delivered rs

-- The bytes left out are all of those put after the stream has choked, and none before.
pub record IsInOrder (before put read : Text) (t : Stream) : Type 0 where
  pub lost : Text
  pub whole : before ++ put ≡ read ++ (t.pending ++ lost)
  pub alive : t.dead ≡ false → lost ≡ []

nothing_read :
    (closed : Bool) (r : Reading) (rs : List (Option Reading))
    → r ≡ (if closed then eof else waiting)
    → delivered (some r ∷ rs) ≡ delivered rs
nothing_read closed (got bytes) rs e = absurd (ground arith)
nothing_read closed eof rs e = refl
nothing_read closed waiting rs e = refl

-- Of a choked stream the parser gets what is pending, and nothing more.
choked_pending :
    (s t : Stream) (cs : List Call) (rs : List (Option Reading))
    → Runs s cs rs t
    → s.dead ≡ true
    → (s.pending ≡ delivered rs ++ t.pending) × (t.dead ≡ true)
choked_pending s t cs rs (nothing _) d = (refl, d)
choked_pending s t cs rs (more _ m _ c _ cs' rs' (takes_in p _ live e) next) d =
    absurd (ground arith)
choked_pending s t cs rs (more _ m _ c _ cs' rs' (chokes p _ live e) next) d = absurd (ground arith)
choked_pending s t cs rs (more _ m _ c _ cs' rs' (ignores p _ dead e) next) d =
    let ih = choked_pending m t cs' rs' next (ap (λ (x : Stream). x.dead) e ∙ d) in
    (sym (ap (λ (x : Stream). x.pending) e) ∙ ih.0, ih.1)
choked_pending s t cs rs (more _ m _ c _ cs' rs' (closes _ e) next) d =
    let ih = choked_pending m t cs' rs' next (ap (λ (x : Stream). x.dead) e ∙ d) in
    (sym (ap (λ (x : Stream). x.pending) e) ∙ ih.0, ih.1)
choked_pending s t cs rs (more _ m _ c _ cs' rs' (delivers n out rest _ k pos le e) next) d =
    let ih = choked_pending m t cs' rs' next (ap (λ (x : Stream). x.dead) e ∙ d) in
    let m_is : m.pending ≡ rest = ap (λ (x : Stream). x.pending) e in
    (
      k ∙ ap (λ l. out ++ l) (sym m_is ∙ ih.0) ∙ sym (append_assoc out (delivered rs') t.pending),
      ih.1,
    )
choked_pending s t cs rs (more _ m _ c _ cs' rs' (stops n r _ k j e) next) d =
    let ih = choked_pending m t cs' rs' next (ap (λ (x : Stream). x.dead) e ∙ d) in
    (
      sym (ap (λ (x : Stream). x.pending) e)
          ∙ ih.0
          ∙ ap (λ l. l ++ t.pending) (sym (nothing_read s.closed r rs' j)),
      ih.1,
    )

live_order :
    (s t : Stream) (cs : List Call) (rs : List (Option Reading))
    → Runs s cs rs t
    → s.dead ≡ false
    → IsInOrder s.pending (put_in cs) (delivered rs) t
live_order s t cs rs (nothing _) d = record { lost = []; whole = refl; alive = λ h. refl }
live_order s t cs rs (more _ m _ c _ cs' rs' (takes_in p _ live e) next) d =
    let ih = live_order m t cs' rs' next (ap (λ (x : Stream). x.dead) e ∙ d) in
    record {
      lost = ih.lost;
      whole =
          sym (append_assoc s.pending p (put_in cs'))
          ∙ ap (λ (x : Stream). x.pending ++ put_in cs') (sym e)
          ∙ ih.whole;
      alive = ih.alive;
    }
live_order s t cs rs (more _ m _ c _ cs' rs' (chokes p _ live e) next) d =
    let rest = choked_pending m t cs' rs' next (ap (λ (x : Stream). x.dead) e) in
    record {
      lost = p ++ put_in cs';
      whole =
          ap (λ l. l ++ (p ++ put_in cs')) (sym (ap (λ (x : Stream). x.pending) e) ∙ rest.0)
          ∙ append_assoc (delivered rs') t.pending (p ++ put_in cs');
      alive = λ h. absurd (ground (arith, rest));
    }
live_order s t cs rs (more _ m _ c _ cs' rs' (ignores p _ dead e) next) d = absurd (ground arith)
live_order s t cs rs (more _ m _ c _ cs' rs' (closes _ e) next) d =
    let ih = live_order m t cs' rs' next (ap (λ (x : Stream). x.dead) e ∙ d) in
    record {
      lost = ih.lost;
      whole = ap (λ (x : Stream). x.pending ++ put_in cs') (sym e) ∙ ih.whole;
      alive = ih.alive;
    }
live_order s t cs rs (more _ m _ c _ cs' rs' (delivers n out rest _ k pos le e) next) d =
    let ih = live_order m t cs' rs' next (ap (λ (x : Stream). x.dead) e ∙ d) in
    record {
      lost = ih.lost;
      whole =
          ap (λ l. l ++ put_in cs') (k ∙ ap (λ (x : Stream). out ++ x.pending) (sym e))
          ∙ append_assoc out m.pending (put_in cs')
          ∙ ap (λ l. out ++ l) ih.whole
          ∙ sym (append_assoc out (delivered rs') (t.pending ++ ih.lost));
      alive = ih.alive;
    }
live_order s t cs rs (more _ m _ c _ cs' rs' (stops n r _ k j e) next) d =
    let ih = live_order m t cs' rs' next (ap (λ (x : Stream). x.dead) e ∙ d) in
    record {
      lost = ih.lost;
      whole =
          ap (λ (x : Stream). x.pending ++ put_in cs') (sym e)
          ∙ ih.whole
          ∙ ap (λ l. l ++ (t.pending ++ ih.lost)) (sym (nothing_read s.closed r rs' j));
      alive = ih.alive;
    }

-- The parser is given the bytes of the relay in order and without a gap: what it has read, what is still
-- pending and what was left out once the feed was dead make up all that was put.
pub run-IsInOrder :
    (cs : List Call)
    → All IsSized cs
    → IsInOrder [] (put_in cs) (delivered (run new_pipe cs).0) (view (run new_pipe cs).1)
unfolding view concat
run-IsInOrder cs h = live_order _ _ cs _ (run-Runs new_pipe cs h) refl

-- A chunk kills a feed exactly if 256 others wait to be read.
pub put-dead_iff :
    (p : Text) (f : Feed) → f.dead ≡ false → ((put p f).dead ≡ true) ↔ (256 ≤ length f.queue)
unfolding put
put-dead_iff p f live = (λ h. ground arith, λ h. ground arith)
