-- ===== src/Tasks/Task.antt =====
-- tasks/task.go: a task, its schedule and its runs. `now` is the reading of the clock; the calls of
-- `time.Now` within one call of `at` give one reading. `run_lock` counts the tokens in the channel.
-- The callback is `Callback`: its name and its number of parameters.
pub mod Schedule
pub mod Runs
use dolly.Prelude.{
  ℕ, ◌+◌, ◌-◌, ◌*◌, ◌%◌, ◌^◌, ◌≡◌, Bool, true, false, not, ◌&&◌, ◌||◌, Option, none, some, List, [],
  ◌∷◌, ◌++◌, Str, codes, ltb, leb, ◌==◌, if◌then◌else◌, length,
}
use dolly.Tasks.Clock.{
  second, minute, hour, day, week, times, add_duration, weekday, date_at, days_since,
}

pub data TimeUnit : Type 0 where
  never seconds minutes hours days weeks : TimeUnit

pub record Callback : Type 0 where
  pub fn_name : Str
  pub num_in : ℕ

pub record Task : Type 0 where
  pub interval : ℕ  -- uint64
  pub unit : TimeUnit
  pub count : ℕ  -- uint32
  pub last_run_at : Option ℕ
  pub next_run_at : ℕ
  pub period : ℕ
  pub start_day : ℕ
  pub name : Str
  pub callback : Option Callback
  pub run_lock : ℕ
  pub running : Bool

unfoldable pub new_task : ℕ → TimeUnit → ℕ → Task
new_task interval unit start_day = record {
  interval = interval;
  unit = unit;
  count = 0;
  last_run_at = none;
  next_run_at = 0;
  period = 0;
  start_day = start_day;
  name = [];
  callback = none;
  run_lock = 0;
  running = false;
}

-- `NewTaskAtIntervals`
unfoldable pub new_task_at_intervals : ℕ → TimeUnit → Task
unfolding new_task
new_task_at_intervals interval unit = new_task interval unit 0

abbrev pub unit_size : TimeUnit → Option ℕ
unit_size never = none
unit_size seconds = some second
unit_size minutes = some minute
unit_size hours = some hour
unit_size days = some day
unit_size weeks = some week

abbrev pub period_of : TimeUnit → ℕ → ℕ → ℕ
period_of unit interval old = elim (unit_size unit) [ none ↦ old | some size ↦ times interval size ]

-- `Duration`, which fills the cache and returns it
unfoldable pub duration : Task → Task
duration j = if j.period == 0 then record j { period = period_of j.unit j.interval j.period } else j

abbrev pub is_weeks : TimeUnit → Bool
is_weeks weeks = true
is_weeks _ = false

abbrev last_daily : ℕ → ℕ → ℕ → ℕ
last_daily now h m = let mock = date_at now 0 h m in if not (ltb mock now) then mock - day else mock

abbrev last_weekly : ℕ → ℕ → ℕ → ℕ → ℕ
last_weekly start now h m =
    let mock = date_at now 0 h m in
    let today = weekday now in
    if not (start == today) || (ltb mock now && start == today)
    then mock - days_since (weekday mock) start * day
    else mock - 7 * day

abbrev last_at : TimeUnit → ℕ → ℕ → ℕ → ℕ → ℕ
last_at days start now h m = last_daily now h m
last_at weeks start now h m = last_weekly start now h m
last_at _ start now h m = date_at now 0 h m

-- `at`
unfoldable pub at : ℕ → ℕ → ℕ → Task → Task
at now h m j = record j { last_run_at = some (last_at j.unit j.start_day now h m) }

-- The test of the constructors; a bad time is a panic, `none`.
abbrev pub bad_time : ℕ → ℕ → Bool
bad_time h m = ltb 23 h || ltb 59 m

-- `NewTaskOnWeekday`
unfoldable pub new_task_on_weekday : ℕ → ℕ → ℕ → ℕ → Option Task
unfolding new_task at
new_task_on_weekday now start h m =
    if bad_time h m then none else some (at now h m (new_task 1 weeks start))

-- `NewTaskDaily`
unfoldable pub new_task_daily : ℕ → ℕ → ℕ → Option Task
unfolding new_task at
new_task_daily now h m = if bad_time h m then none else some (at now h m (new_task 1 days 0))

-- What `scheduleNextRun` takes for the last run of a task that has not run.
abbrev first_run : TimeUnit → ℕ → ℕ → ℕ
first_run weeks start now = date_at now (days_since (weekday now) start) 0 0
first_run _ start now = now

abbrev or_first : Option ℕ → ℕ → ℕ
or_first none first = first
or_first (some last) first = last

-- `scheduleNextRun`
unfoldable pub schedule_next_run : ℕ → Task → Task
unfolding duration
schedule_next_run now j =
    let last = or_first j.last_run_at (first_run j.unit j.start_day now) in
    let j' = duration (record j { last_run_at = some last }) in
    record j' { next_run_at = add_duration last j'.period }

-- `Do`; the wrong number of parameters is a panic, `none`.
unfoldable pub do_task : ℕ → Str → Callback → ℕ → Task → Option Task
unfolding schedule_next_run
do_task now task_name fn params j =
    if not (params == fn.num_in)
    then none
    else some (
        schedule_next_run now
          (record j { name = task_name ++ codes "@" ++ fn.fn_name; callback = some fn }))

-- `ShouldRun`
unfoldable pub should_run : ℕ → Task → Bool
should_run now j = not j.running && ltb j.next_run_at now

-- `LastRunTime`
unfoldable pub last_run_time : Task → ℕ
last_run_time j = or_first j.last_run_at 0

-- The first half of `Run`, up to the callback: `none` is a lock that stayed taken until the timeout,
-- when `Run` returns false.
unfoldable pub run_begin : ℕ → Task → Option Task
run_begin now j =
    if ltb j.run_lock 1
    then some (record j {
      run_lock = j.run_lock + 1;
      last_run_at = some now;
      running = true;
      count = (j.count + 1) % 2 ^ 32;
    })
    else none

-- The second half of `Run`, once the callback has returned.
unfoldable pub run_end : ℕ → Task → Task
unfolding schedule_next_run
run_end now j =
    let j' = schedule_next_run now (record j { running = false }) in
    record j' { run_lock = j'.run_lock - 1 }
