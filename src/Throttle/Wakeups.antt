-- ===== src/Throttle/Wakeups.antt =====
-- No caller of `Next` is left asleep: throttle.go, `Trigger`, `Next`, `Stop` and the timers.
use dolly.Prelude.{ℕ, ◌<◌, ◌≡◌, ◌≢◌, Bool, true, [], arith}
use dolly.Throttle.{
  World, Step, on_trigger, on_next, on_resume, on_stop, on_timer, Reach, here, next, new_throttler,
  trigger, next_pass, stop_throttler, fire, resume, start,
}

-- A sleeper is there only while nothing is to be done, or a timer is pending that will wake it.
pub record IsAwake (w : World) : Type 0 where
  pub stopped : w.t.stop ≡ true → w.t.cond.asleep ≡ 0
  pub triggered : w.t.waiting ≡ true → 0 < w.t.cond.asleep → w.timers ≢ []

start-IsAwake : (period : ℕ) (trailing : Bool) → IsAwake (start period trailing)
unfolding new_throttler
start-IsAwake period trailing = ground arith

Step-IsAwake : {w v : World} → Step w v → IsAwake w → IsAwake v
unfolding trigger next_pass stop_throttler fire resume
Step-IsAwake (on_trigger now h) a = ground arith
Step-IsAwake (on_next now h) a = ground arith
Step-IsAwake (on_resume now h k) a = ground arith
Step-IsAwake (on_stop now h) a = ground arith
Step-IsAwake (on_timer now due before after h k e) a = ground arith

Reach-IsAwake : {s w : World} → IsAwake s → Reach s w → IsAwake w
Reach-IsAwake a here = a
Reach-IsAwake a (next r st) = Step-IsAwake st (Reach-IsAwake a r)

-- In every interleaving of callers and timers from a new throttler: once it is stopped no caller
-- sleeps in `Next`, and while a trigger waits to be served a caller sleeps only if a timer that
-- will wake it is pending.
pub no_lost_wakeup :
    (period : ℕ) (trailing : Bool) {w : World} → Reach (start period trailing) w → IsAwake w
no_lost_wakeup period trailing r = Reach-IsAwake (start-IsAwake period trailing) r
