-- ===== src/Throttle/Spacing.antt =====
-- How often `Next` returns true: throttle.go, without trailing triggers, and with them.
use dolly.Prelude.{ℕ, ◌+◌, ◌≤◌, ◌<◌, ◌≡◌, refl, true, false, some, List, [], ◌∷◌, arith}
use dolly.Throttle.{
  World, Step, on_trigger, on_next, on_resume, on_stop, on_timer, Reach, here, next, new_throttler,
  trigger, next_pass, stop_throttler, fire, resume, leave_wait, start,
}

-- Consecutive times, newest first, lie more than `period` apart.
abbrev pub Gaps : ℕ → List ℕ → Type 0
Gaps period [] = Unit
Gaps period (t ∷ []) = Unit
Gaps period (t ∷ u ∷ r) = (u + period < t) × Gaps period (u ∷ r)

abbrev last_run : List ℕ → ℕ
last_run [] = 0
last_run (t ∷ r) = t

-- The invariant of a throttler without trailing triggers.
record IsSpaced (period : ℕ) (w : World) : Type 0 where
  no_trailing : w.t.trailing ≡ false
  same_period : w.t.period ≡ period
  recorded : w.t.last ≡ last_run w.ran
  past : w.t.last ≤ w.clock
  due : w.t.waiting ≡ true → w.t.last + period < w.clock
  gaps : Gaps period w.ran

Gaps-cons :
    (period now : ℕ) (ran : List ℕ)
    → last_run ran + period < now
    → Gaps period ran
    → Gaps period (now ∷ ran)
Gaps-cons period now [] h g = tt
Gaps-cons period now (t ∷ r) h g = (h, g)

trigger-IsSpaced :
    (period now : ℕ) (w : World)
    → w.clock ≤ now
    → IsSpaced period w
    → IsSpaced period (trigger now w)
unfolding trigger
trigger-IsSpaced period now w h s = ground arith

next_pass-IsSpaced :
    (period now : ℕ) (w : World)
    → w.clock ≤ now
    → IsSpaced period w
    → IsSpaced period (next_pass now w).0
unfolding next_pass
next_pass-IsSpaced period now w h s = ground (arith, Gaps-cons period now w.ran)

Step-IsSpaced : {period : ℕ} {w v : World} → Step w v → IsSpaced period w → IsSpaced period v
unfolding stop_throttler fire resume
Step-IsSpaced {period} {w} (on_trigger now h) s = trigger-IsSpaced period now w h s
Step-IsSpaced {period} {w} (on_next now h) s = next_pass-IsSpaced period now w h s
Step-IsSpaced {period} {w} (on_resume now h k) s =
    next_pass-IsSpaced period now (leave_wait w) h (ground arith)
Step-IsSpaced (on_stop now h) s = ground arith
Step-IsSpaced (on_timer now due before after h k e) s = ground arith

Reach-IsSpaced : {period : ℕ} {s w : World} → IsSpaced period s → Reach s w → IsSpaced period w
Reach-IsSpaced a here = a
Reach-IsSpaced a (next r st) = Step-IsSpaced st (Reach-IsSpaced a r)

start-IsSpaced : (period : ℕ) → IsSpaced period (start period false)
unfolding new_throttler
start-IsSpaced period = ground arith

-- Without trailing triggers, in every interleaving, any two returns of true from `Next` lie more
-- than a period apart.
pub next_once_per_period :
    (period : ℕ) {w : World} → Reach (start period false) w → Gaps period w.ran
next_once_per_period period r = (Reach-IsSpaced (start-IsSpaced period) r).gaps

-- With trailing triggers the bound fails: when a trigger comes within the period that follows the
-- last run, and `Next` is called after it, still within that period, then `Next` returns true at
-- once, and the recorded times no longer lie more than a period apart.
pub trailing_runs_early :
    (w : World) (at now : ℕ) (earlier : List ℕ)
    → w.ran ≡ w.t.last ∷ earlier
    → w.t.trailing ≡ true
    → w.t.waiting ≡ false
    → w.t.stop ≡ false
    → w.t.last ≤ at
    → at ≤ now
    → now ≤ w.t.last + w.t.period
    → ((next_pass now (trigger at w)).1 ≡ some true)
      × ¬ (Gaps w.t.period (next_pass now (trigger at w)).0.ran)
unfolding trigger next_pass
trailing_runs_early w at now earlier r tr wt st h k d = ground arith

IsStopped : World → List ℕ → Type 0
IsStopped v ran = (v.t.stop ≡ true) × (v.ran ≡ ran)

Step-IsStopped : (ran : List ℕ) {u v : World} → Step u v → IsStopped u ran → IsStopped v ran
unfolding IsStopped trigger next_pass stop_throttler fire resume
Step-IsStopped ran (on_trigger now h) s = ground arith
Step-IsStopped ran (on_next now h) s = ground arith
Step-IsStopped ran (on_resume now h k) s = ground arith
Step-IsStopped ran (on_stop now h) s = ground arith
Step-IsStopped ran (on_timer now due before after h k e) s = ground arith

Reach-IsStopped : (ran : List ℕ) {u v : World} → IsStopped u ran → Reach u v → IsStopped v ran
Reach-IsStopped ran s here = s
Reach-IsStopped ran s (next r st) = Step-IsStopped ran st (Reach-IsStopped ran s r)

-- After `Stop`, whatever callers and timers do, the throttler stays stopped, `Next` has not
-- returned true again, and every later pass of `Next` returns false without sleeping.
pub stop_is_final :
    (w v : World) (at now : ℕ)
    → Reach (stop_throttler at w) v
    → (v.t.stop ≡ true) × (v.ran ≡ w.ran) × ((next_pass now v).1 ≡ some false)
unfolding IsStopped next_pass stop_throttler
stop_is_final w v at now r =
    let s : IsStopped v w.ran = Reach-IsStopped w.ran (unfold stop_throttler in (refl, refl)) r in
    ground arith
