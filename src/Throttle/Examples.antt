-- ===== src/Throttle/Examples.antt =====
-- Runs of the throttler, and the theorems about it at concrete inputs.
use dolly.Prelude.{◌≡◌, refl, true, false, some, [], ◌∷◌, arith}
use dolly.Throttle.{
  World, on_trigger, on_next, on_resume, Reach, here, next, new_throttler, trigger, next_pass,
  stop_throttler, resume, start,
}
use dolly.Throttle.Wakeups.{IsAwake, no_lost_wakeup}
use dolly.Throttle.Spacing.{Gaps, next_once_per_period, trailing_runs_early}

-- A caller sleeps, is woken by a trigger at 50, and runs; the trigger at 55 is ignored.
abbrev ignored : World
ignored = trigger 55 (resume 51 (trigger 50 (next_pass 1 (start 10 false)).0)).0

ignored_runs : ignored.ran ≡ 51 ∷ []
unfolding trigger next_pass resume new_throttler
ignored_runs = refl

ignored-Reach : Reach (start 10 false) ignored
unfolding trigger next_pass resume new_throttler
ignored-Reach =
    next
      (next (next (next here (on_next 1 (omega arith))) (on_trigger 50 (omega arith)))
        (on_resume 51 (omega arith) (omega arith)))
      (on_trigger 55 (omega arith))

next_once_per_period_example : Gaps 10 ignored.ran
next_once_per_period_example = next_once_per_period 10 ignored-Reach

no_lost_wakeup_example : IsAwake ignored
no_lost_wakeup_example = no_lost_wakeup 10 false ignored-Reach

-- The same calls with trailing triggers: the trigger at 55 lets `Next` run at 57, 6 after 51.
abbrev busy : World
busy = (resume 51 (trigger 50 (next_pass 1 (start 10 true)).0)).0

trailing_runs_early_example :
    ((next_pass 57 (trigger 55 busy)).1 ≡ some true)
    × ¬ (Gaps 10 (next_pass 57 (trigger 55 busy)).0.ran)
unfolding trigger next_pass resume new_throttler
trailing_runs_early_example =
    trailing_runs_early busy 55 57 [] refl refl refl refl (omega arith) (omega arith) (omega arith)

abbrev stopped : World
stopped = trigger 70 (stop_throttler 60 busy)
