-- ===== src/Tasks/Task/Schedule.antt =====
-- When a task runs next: `at`, `Duration` and `scheduleNextRun` of tasks/task.go.
use dolly.Prelude.{
  ℕ, ◌+◌, ◌*◌, ◌%◌, ◌^◌, ◌≤◌, ◌<◌, ◌==◌, ◌≡◌, ◌⊎◌, refl, ap, none, true, false, Str, codes, ◌++◌,
  some, arith, Bool-cases, inl, inr,
}
use dolly.Tasks.Clock.{second, minute, hour, day, week, word, add_duration, weekday}
use dolly.Tasks.Task.{
  TimeUnit, never, seconds, minutes, hours, days, weeks, Task, period_of, bad_time, new_task,
  Callback, is_weeks, new_task_at_intervals, do_task, should_run, run_begin, run_end, duration, at,
  schedule_next_run, new_task_daily, new_task_on_weekday,
}

-- The first time at `h`:`m` that is not before `now`, within `span` and on a day that passes.
abbrev pub FirstAt : (ℕ → Type 0) → ℕ → ℕ → ℕ → ℕ → ℕ → Type 0
FirstAt OnDay span now h m next =
    (now ≤ next) × (next < now + span) × (next % day ≡ h * hour + m * minute) × OnDay next

-- A daily task, created and scheduled at `now`, in 1970's second day or later, is refused if the
-- hour is over 23 or the minute over 59; otherwise its next run is the one instant at that time of
-- day from `now` on and before the same time a day later.
pub daily_next_run :
    (now h m : ℕ)
    → day ≤ now
    → ((new_task_daily now h m ≡ none) × ((23 < h) ⊎ (59 < m)))
      ⊎ ((j : Task) × (new_task_daily now h m ≡ some j)
          × (h ≤ 23)
          × (m ≤ 59)
          × FirstAt (λ t. Unit) day now h m (schedule_next_run now j).next_run_at)
unfolding schedule_next_run at new_task new_task_daily
daily_next_run now h m r = elim (Bool-cases (bad_time h m)) [
  | inl bad ↦ inl (ground arith, ground arith)
  | inr good ↦
      inr (at now h m (new_task 1 days 0), ground arith, ground arith, ground arith, ground arith)
]

-- A weekly task, created and scheduled at `now`, in 1970's second week or later, is refused if the
-- hour is over 23 or the minute over 59; otherwise its next run is the one instant on that weekday
-- at that time of day from `now` on and before the same time a week later.
pub weekly_next_run :
    (now start h m : ℕ)
    → week ≤ now
    → start < 7
    → ((new_task_on_weekday now start h m ≡ none) × ((23 < h) ⊎ (59 < m)))
      ⊎ ((j : Task) × (new_task_on_weekday now start h m ≡ some j)
          × (h ≤ 23)
          × (m ≤ 59)
          × FirstAt (λ t. weekday t ≡ start) week now h m (schedule_next_run now j).next_run_at)
unfolding schedule_next_run at new_task new_task_on_weekday
weekly_next_run now start h m r s = elim (Bool-cases (bad_time h m)) [
  | inl bad ↦ inl (ground arith, ground arith)
  | inr good ↦
      inr (
        at now h m (new_task 1 weeks start),
        ground arith,
        ground arith,
        ground arith,
        ground arith,
      )
]

abbrev pub size : TimeUnit → ℕ
size never = 0
size seconds = second
size minutes = minute
size hours = hour
size days = day
size weeks = week

period_of-size : (u : TimeUnit) (interval : ℕ) → period_of u interval 0 ≡ (interval * size u) % word
period_of-size never interval = omega arith
period_of-size seconds interval = refl
period_of-size minutes interval = refl
period_of-size hours interval = refl
period_of-size days interval = refl
period_of-size weeks interval = refl

schedule_after :
    (j : Task) (now last : ℕ)
    → j.last_run_at ≡ some last
    → j.period ≡ 0
    → (schedule_next_run now j).next_run_at ≡ add_duration last ((j.interval * size j.unit) % word)
unfolding schedule_next_run
schedule_after j now last h p =
    rw h (ap (add_duration last) (unfold duration in rw p (period_of-size j.unit j.interval)))

-- A task that has run before and has no cached period is due one interval after its last run, if
-- the interval in nanoseconds is below 2^63.
pub next_after_interval :
    (j : Task) (now last : ℕ)
    → j.last_run_at ≡ some last
    → j.period ≡ 0
    → j.interval * size j.unit < 2 ^ 63
    → (schedule_next_run now j).next_run_at ≡ last + j.interval * size j.unit
next_after_interval j now last h p small = ground (arith, schedule_after j now last h p)

-- A duration whose 64-bit pattern is negative goes back in time.
add_duration-lt : (last d : ℕ) → 2 ^ 63 ≤ d → d < 2 ^ 64 → 0 < last → add_duration last d < last
add_duration-lt last d big fits pos = ground arith

-- A task of an interval as `Do` leaves it
abbrev done_at : ℕ → ℕ → TimeUnit → Str → Callback → Task
done_at now interval u task_name fn =
    let d = (interval * size u) % word in
    record (new_task_at_intervals interval u) {
      name = task_name ++ codes "@" ++ fn.fn_name;
      callback = some fn;
      last_run_at = some now;
      period = d;
      next_run_at = add_duration now d;
    }

do_task-done_at :
    (now interval params : ℕ) (u : TimeUnit) (task_name : Str) (fn : Callback)
    → is_weeks u ≡ false
    → 0 < interval * size u
    → (params == fn.num_in) ≡ true
    → do_task now task_name fn params (new_task_at_intervals interval u)
      ≡ some (done_at now interval u task_name fn)
unfolding do_task schedule_next_run duration new_task_at_intervals new_task
do_task-done_at now interval params never task_name fn w pos e = absurd (omega (arith, pos))
do_task-done_at now interval params seconds task_name fn w pos e = rw e refl
do_task-done_at now interval params minutes task_name fn w pos e = rw e refl
do_task-done_at now interval params hours task_name fn w pos e = rw e refl
do_task-done_at now interval params days task_name fn w pos e = rw e refl
do_task-done_at now interval params weeks task_name fn w pos e = absurd (cc w)

-- A task of an interval in seconds, minutes, hours or days, from 2^63 up to 2^64 nanoseconds, never
-- waits: the 64-bit product is negative. Let the times be after the first instant of 1970. Once `Do` has
-- scheduled the new task, with the right number of parameters, it should run at once; a run begins, and
-- when that ends, at its start or whatever time after it, the task should run again.
pub long_interval_in_past :
    (now interval params start end : ℕ) (u : TimeUnit) (task_name : Str) (fn : Callback)
    → is_weeks u ≡ false
    → 2 ^ 63 ≤ interval * size u
    → interval * size u < 2 ^ 64
    → (params == fn.num_in) ≡ true
    → 0 < now
    → 0 < start
    → start ≤ end
    → (j : Task) × (k : Task) × (do_task now task_name fn params (new_task_at_intervals interval u)
        ≡ some j)
      × (should_run now j ≡ true)
      × (run_begin start j ≡ some k)
      × (should_run end (run_end end k) ≡ true)
unfolding should_run run_begin new_task_at_intervals new_task
long_interval_in_past now interval params start end u task_name fn w big fits e pos started later =
    let j = done_at now interval u task_name fn in
    let k = record j { run_lock = 1; last_run_at = some start; running = true; count = 1 } in
    let d = (interval * size u) % word in
    (
      j,
      k,
      do_task-done_at now interval params u task_name fn w (omega arith) e,
      ground (arith, add_duration-lt now d (omega arith) (omega arith) pos),
      refl,
      unfold run_end schedule_next_run duration in
          ground (arith, add_duration-lt start d (omega arith) (omega arith) started),
    )
