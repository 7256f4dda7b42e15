-- ===== src/Relay/Idle.antt =====
-- The idle guard of internal/datatunnel/relay.go: the timer that ends a relay without activity. Times are
-- nanoseconds; a timer fires at its deadline or later.
use airpc.Prelude.{
  ℕ, ◌+◌, ◌-◌, ◌≤◌, ◌<◌, ◌≡◌, ◌↔◌, refl, inl, inr, subst, Bool, true, false, Option, none, some,
  List, [], ◌∷◌, leb, ltb, arith, Bool-cases, if◌then◌else◌,
}

-- `idleGuard`; `timer` is the deadline of the armed timer, and there is none for a timeout of zero.
pub record IdleGuard : Type 0 where
  pub timeout : ℕ
  pub last : ℕ
  pub timer : Option ℕ

unfoldable pub new_idle_guard : ℕ → ℕ → IdleGuard
new_idle_guard timeout now = record {
  timeout = timeout;
  last = now;
  timer = if ltb 0 timeout then some (now + timeout) else none;
}

unfoldable pub touch : ℕ → IdleGuard → IdleGuard
touch now g = record g { last = now }

-- What remains is the timeout less the time since the last activity, which is `last + timeout - now`: if
-- that is not more than 0 the time is up, else the timer is set to it.
unfoldable pub expired : ℕ → IdleGuard → Bool × IdleGuard
expired now g =
    if leb (g.last + g.timeout) now
    then (true, g)
    else (false, record g { timer = some (now + (g.last + g.timeout - now)) })

-- Activity at a time, or the timer fires, this long after the deadline.
pub data IdleEvent : Type 0 where
  active : ℕ → IdleEvent
  fires : ℕ → IdleEvent

-- What the relay does on an event of its guard: the guard then, or the time at which it gives up.
pub data Watch : Type 0 where
  watching : IdleGuard → Watch
  gave_up : ℕ → Watch

abbrev fire_at : ℕ → IdleGuard → Watch
fire_at now g = let (over, g') = expired now g in if over then gave_up now else watching g'

unfoldable pub watch_step : IdleGuard → IdleEvent → Watch
unfolding touch expired
watch_step g (active now) = watching (touch now g)
watch_step g (fires late) = elim g.timer [
  | some deadline ↦ fire_at (deadline + late) g
  | none ↦ watching g
]

unfoldable pub watch : IdleGuard → List IdleEvent → Watch
unfolding watch_step
watch g [] = watching g
watch g (e ∷ es) = elim (watch_step g e) [ watching g' ↦ watch g' es | gave_up now ↦ gave_up now ]

-- The time of the last activity of a list of events, for that before them.
abbrev pub last_active : ℕ → List IdleEvent → ℕ
last_active t [] = t
last_active t (active now ∷ es) = last_active now es
last_active t (fires late ∷ es) = last_active t es

-- The times of the activities of a list of events do not go back.
abbrev pub IsOrdered : ℕ → List IdleEvent → Type 0
IsOrdered t [] = Unit
IsOrdered t (active now ∷ es) = (t ≤ now) × IsOrdered now es
IsOrdered t (fires late ∷ es) = IsOrdered t es

-- A guard that knows the last activity, and whose timer is set for the end of the time or before.
pub record IsArmed (timeout last : ℕ) (g : IdleGuard) : Type 0 where
  pub deadline : ℕ
  pub times_out : g.timeout ≡ timeout
  pub knows : g.last ≡ last
  pub armed : g.timer ≡ some deadline
  pub soon : deadline ≤ last + timeout

touch-IsArmed :
    (timeout last now : ℕ) (g : IdleGuard)
    → last ≤ now
    → IsArmed timeout last g
    → IsArmed timeout now (touch now g)
unfolding touch
touch-IsArmed timeout last now g le v = record {
  deadline = v.deadline;
  times_out = v.times_out;
  knows = refl;
  armed = v.armed;
  soon = omega (arith, v.soon);
}

-- A timer that fires ends the relay, or is set for the end of the time.
data Fired (timeout last now : ℕ) (w : Watch) : Type 0 where
  over : last + timeout ≤ now → w ≡ gave_up now → Fired timeout last now w
  later :
      (g : IdleGuard)
      → now < last + timeout
      → w ≡ watching g
      → IsArmed timeout last g
      → Fired timeout last now w

fire-Fired :
    (timeout last late : ℕ) (g : IdleGuard) (v : IsArmed timeout last g)
    → Fired timeout last (v.deadline + late) (watch_step g (fires late))
unfolding watch_step expired
fire-Fired timeout last late g v =
    elim (Bool-cases (leb (g.last + g.timeout) (v.deadline + late))) [
      | inl up ↦ over (ground (arith, v.times_out, v.knows)) (ground (arith, v.armed))
      | inr more ↦
          let now = v.deadline + late in
          let g' : IdleGuard = record g { timer = some (now + (g.last + g.timeout - now)) } in
          later g' (ground (arith, v.times_out, v.knows)) (ground (arith, v.armed)) (record {
            deadline = now + (g.last + g.timeout - now);
            times_out = v.times_out;
            knows = v.knows;
            armed = refl;
            soon = ground (arith, v.times_out, v.knows);
          })
    ]

watch-IsArmed :
    (timeout last : ℕ) (g : IdleGuard) (es : List IdleEvent) (g' : IdleGuard)
    → IsOrdered last es
    → IsArmed timeout last g
    → watch g es ≡ watching g'
    → IsArmed timeout (last_active last es) g'
unfolding watch
watch-IsArmed timeout last g [] g' o v e =
    subst (λ (w : IdleGuard). IsArmed timeout last w) (ground arith) v
watch-IsArmed timeout last g (active now ∷ es) g' o v e =
    watch-IsArmed timeout now (touch now g) es g' o.1 (touch-IsArmed timeout last now g o.0 v)
      (unfold watch_step in e)
watch-IsArmed timeout last g (fires late ∷ es) g' o v e = elim (fire-Fired timeout last late g v) [
  | over up w ↦ absurd (ground (arith, w))
  | later h soon w armed ↦ watch-IsArmed timeout last h es g' o armed (ground (arith, w))
]

new-IsArmed : (timeout now : ℕ) → 0 < timeout → IsArmed timeout now (new_idle_guard timeout now)
unfolding new_idle_guard
new-IsArmed timeout now h = record {
  deadline = now + timeout;
  times_out = refl;
  knows = refl;
  armed = ground arith;
  soon = omega arith;
}

-- While the guard of a relay watches, its timer is set for the end of the time of silence or before,
-- and when it fires it ends the relay exactly if that time is up: the timeout behind the last activity.
pub watch-gives_up_iff :
    (timeout start : ℕ) (es : List IdleEvent) (g : IdleGuard)
    → 0 < timeout
    → IsOrdered start es
    → watch (new_idle_guard timeout start) es ≡ watching g
    → (deadline : ℕ) × (g.timer ≡ some deadline)
      × (deadline ≤ last_active start es + timeout)
      × ((late : ℕ)
          → (watch_step g (fires late) ≡ gave_up (deadline + late))
            ↔ (last_active start es + timeout ≤ deadline + late))
watch-gives_up_iff timeout start es g h o e =
    let v =
      watch-IsArmed timeout start (new_idle_guard timeout start) es g o
        (new-IsArmed timeout start h) e in
    (
      v.deadline,
      v.armed,
      v.soon,
      λ late. elim (fire-Fired timeout (last_active start es) late g v) [
        | over up w ↦ (λ k. up, λ k. w)
        | later h' soon w armed ↦
            (λ k. absurd (ground (arith, w)), λ k. absurd (omega (arith, soon)))
      ],
    )
