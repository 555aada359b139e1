-- ===== src/Throttle.antt =====
-- algorithms/throttle/throttle.go: the throttler, with its callers as interleaved steps.
-- Times are nanoseconds since Go's zero time, so the zero `last` is 0. The fields of `Throttler` are
-- the source's; `Cond` counts the callers that sleep in `cond.Wait` and those that a broadcast has
-- woken and that have not run yet. `World` adds the pending `time.AfterFunc` timers, the clock, and
-- the times at which `Next` has returned true, newest first. The mutex makes each pass one step.
pub mod Wakeups
pub mod Spacing
pub mod Examples
use Prim.Native.Nat.{min}
use dolly.Prelude.{
  ℕ, ◌+◌, ◌-◌, ◌^◌, ◌≤◌, ◌<◌, ◌≡◌, Bool, true, false, not, ◌&&◌, Option, none, some, List, [], ◌∷◌,
  ◌++◌, ltb, if◌then◌else◌,
}

pub record Cond : Type 0 where
  pub asleep : ℕ
  pub woken : ℕ

pub record Throttler : Type 0 where
  pub cond : Cond
  pub period : ℕ
  pub trailing : Bool
  pub last : ℕ
  pub waiting : Bool
  pub stop : Bool

pub record World : Type 0 where
  pub t : Throttler
  pub timers : List ℕ
  pub clock : ℕ
  pub ran : List ℕ

unfoldable pub new_throttler : ℕ → Bool → Throttler
new_throttler period trailing = record {
  cond = record { asleep = 0; woken = 0 };
  period = period;
  trailing = trailing;
  last = 0;
  waiting = false;
  stop = false;
}

-- `cond.Broadcast`: every sleeper is woken.
abbrev broadcast : Cond → Cond
broadcast c = record { asleep = 0; woken = c.woken + c.asleep }

-- The largest `time.Duration`, at which `time.Time.Sub` saturates.
abbrev pub max_duration : ℕ
max_duration = 2 ^ 63 - 1

-- `now.Sub(last)`; the clock is monotonic, so the difference is not negative.
abbrev pub time_sub : ℕ → ℕ → ℕ
time_sub now last = min (now - last) max_duration

-- `Trigger`, at the time `now`.
unfoldable pub trigger : ℕ → World → World
trigger now w =
    let delta = time_sub now t.last in
    if not t.waiting && not t.stop
    then (if ltb t.period delta
        then record w { t = record t { waiting = true; cond = broadcast t.cond }; clock = now }
        else if t.trailing
        then record w {
          t = record t { waiting = true };
          timers = (now + (t.period - delta)) ∷ timers;
          clock = now;
        }
        else record w { clock = now })
    else record w { clock = now }
  where
    open w use {t, timers}

-- One pass of `Next` under the lock: `none` is a caller that went to sleep in `cond.Wait`.
unfoldable pub next_pass : ℕ → World → World × Option Bool
next_pass now w =
    if not t.waiting && not t.stop
    then (
      record w {
        t = record t { cond = record t.cond { asleep = t.cond.asleep + 1 } };
        clock = now;
      },
      none,
    )
    else if not t.stop
    then (
      record w { t = record t { waiting = false; last = now }; clock = now; ran = now ∷ ran },
      some true,
    )
    else (record w { clock = now }, some false)
  where
    open w use {t, ran}

-- `Stop`.
unfoldable pub stop_throttler : ℕ → World → World
stop_throttler now w = record w {
  t = record t { stop = true; cond = broadcast t.cond };
  clock = now;
}
  where
    open w use {t}

-- A timer that `Trigger` set runs `cond.Broadcast`.
unfoldable pub fire : ℕ → List ℕ → World → World
fire now rest w = record w { t = record t { cond = broadcast t.cond }; timers = rest; clock = now }
  where
    open w use {t}

-- A woken caller leaves `cond.Wait`, takes the lock and tests the loop's condition again.
abbrev pub leave_wait : World → World
leave_wait w = record w { t = record t { cond = record t.cond { woken = t.cond.woken - 1 } } }
  where
    open w use {t}

unfoldable pub resume : ℕ → World → World × Option Bool
unfolding next_pass
resume now w = next_pass now (leave_wait w)

-- The interleavings: any caller may run next, and time does not go back.
pub data Step (w : World) : World → Type 0 where
  on_trigger : (now : ℕ) → w.clock ≤ now → Step w (trigger now w)
  on_next : (now : ℕ) → w.clock ≤ now → Step w (next_pass now w).0
  on_resume : (now : ℕ) → w.clock ≤ now → 0 < w.t.cond.woken → Step w (resume now w).0
  on_stop : (now : ℕ) → w.clock ≤ now → Step w (stop_throttler now w)
  on_timer :
      (now due : ℕ) (before after : List ℕ)
      → w.clock ≤ now
      → due ≤ now
      → w.timers ≡ before ++ due ∷ after
      → Step w (fire now (before ++ after) w)

abbrev pub start : ℕ → Bool → World
start period trailing = record {
  t = new_throttler period trailing;
  timers = [];
  clock = 0;
  ran = [];
}

pub data Reach (s : World) : World → Type 0 where
  here : Reach s s
  next : {w v : World} → Reach s w → Step w v → Reach s v
