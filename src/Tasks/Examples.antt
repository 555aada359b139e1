-- ===== src/Tasks/Examples.antt =====
-- Tasks, formats and schedulers at concrete inputs, and the theorems about them there.
use mathlib.Core.List.{Perm}
use dolly.Prelude.{
  ℕ, ◌+◌, ◌*◌, ◌≤◌, ◌<◌, ◌≡◌, ◌≢◌, ◌⊎◌, refl, Bool, true, false, none, some, List, [], ◌∷◌, ◌++◌,
  codes, str_eq, All, arith, ◌==◌, if◌then◌else◌,
}
use dolly.GoText.{split, to_lower, contains}
use dolly.Tasks.Clock.{second, minute, hour, day, week, weekday}
use dolly.Tasks.Task.{
  seconds, Task, new_task, new_task_at_intervals, new_task_on_weekday, schedule_next_run,
  should_run, run_begin, run_end, do_task,
}
use dolly.Tasks.Task.Schedule.{FirstAt, weekly_next_run, long_interval_in_past}
use dolly.Tasks.Task.Runs
use dolly.Tasks.Task.Runs.{runs_exclude, IsExclusive, fresh}
use dolly.GoText.Numbers.{atoi, parse_uint}
use dolly.Tasks.Format.{
  parse_task_format, parse_word, parse_time_format, unit_word, weekday_word, other_word,
}
use dolly.Tasks.Format.Valid.{IsFormatted, parse-IsFormatted}
use dolly.Tasks.Scheduler.{
  Scheduler, new_scheduler, add, start, stop, quit_loop, stopping, blocked, get_runnable_tasks,
  is_running,
}
use dolly.Tasks.Scheduler.Runnable.{IsSorted, runnable_exact, running_task_starves}
use dolly.Tasks.Scheduler.Lifecycle
use dolly.Tasks.Scheduler.Lifecycle.{IsSound, scheduler-IsSound, stopped_for_good}

-- Friday, 4 October 2024, 09:30 UTC
abbrev friday : ℕ
friday = 20000 * day + 9 * hour + 30 * minute

is_friday : weekday friday ≡ 5
is_friday = refl

weekly_next_run_example :
    ((new_task_on_weekday friday 5 9 15 ≡ none) × ((23 < 9) ⊎ (59 < 15)))
    ⊎ ((j : Task) × (new_task_on_weekday friday 5 9 15 ≡ some j)
        × (9 ≤ 23)
        × (15 ≤ 59)
        × FirstAt (λ t. weekday t ≡ 5) week friday 9 15 (schedule_next_run friday j).next_run_at)
weekly_next_run_example = weekly_next_run friday 5 9 15 (omega arith) (omega arith)

long_interval_in_past_example :
    (j : Task) × (k : Task) × (do_task friday
        (codes "slow")
        (record { fn_name = codes "f"; num_in = 0 })
        0
        (new_task_at_intervals 10000000000 seconds)
      ≡ some j)
    × (should_run friday j ≡ true)
    × (run_begin friday j ≡ some k)
    × (should_run (friday + hour) (run_end (friday + hour) k) ≡ true)
long_interval_in_past_example =
    long_interval_in_past friday 10000000000 0 friday (friday + hour) seconds (codes "slow")
      (record { fn_name = codes "f"; num_in = 0 }) refl (omega arith) (omega arith) refl
      (omega arith) (omega arith) (omega arith)

abbrev running_once : Runs.Runner
running_once = record {
  j = record (new_task 5 seconds 0) {
    run_lock = 1;
    last_run_at = some friday;
    running = true;
    count = 1;
  };
  active = 1;
  started = 1;
}

runs_exclude_example : IsExclusive running_once
unfolding new_task run_begin
runs_exclude_example =
    runs_exclude 5 seconds 0 (Runs.next Runs.here (Runs.begins friday running_once.j refl))

tuesday_runs : parse_task_format friday (codes "every Tuesday 23:59") ≢ none
unfolding parse_task_format parse_word parse_time_format atoi unit_word weekday_word other_word
    split to_lower contains str_eq
tuesday_runs e = ground arith

parse-IsFormatted_example : IsFormatted (new_task_at_intervals 61 seconds)
unfolding new_task_at_intervals
parse-IsFormatted_example =
    parse-IsFormatted friday (codes "every 61 Seconds") (new_task 61 seconds 0) parsed
  where
    parsed : parse_task_format friday (codes "every 61 Seconds") ≡ some (new_task 61 seconds 0)
    parsed =
        unfold parse_task_format parse_word parse_uint unit_word weekday_word other_word split
          to_lower contains str_eq in
        refl

-- Task 0 is due first and is in the middle of a run; tasks 1 and 2 are due too.
abbrev overdue : Bool → ℕ → Task
overdue busy a = record (new_task 1 seconds 0) {
  next_run_at = friday + a * second;
  running = if a == 0 then busy else false;
}

abbrev three_tasks : Bool → Scheduler
three_tasks busy = record {
  tasks = 2 ∷ 0 ∷ 1 ∷ [];
  heap = overdue busy;
  running = true;
  quit = 0;
  loops = 1;
}

all_run : (get_runnable_tasks (friday + hour) (three_tasks false)).0 ≡ 0 ∷ 1 ∷ 2 ∷ []
unfolding get_runnable_tasks should_run new_task
all_run = refl

runnable_exact_example :
    let (runnable, s') = get_runnable_tasks (friday + hour) (three_tasks false) in
    Perm s'.tasks (2 ∷ 0 ∷ 1 ∷ [])
    × IsSorted (overdue false) s'.tasks
    × ((rest : List ℕ) × (runnable ++ rest ≡ s'.tasks)
        × All (λ a. should_run (friday + hour) (overdue false a) ≡ true) runnable
        × All (λ a. should_run (friday + hour) (overdue false a) ≡ false) rest)
unfolding new_task
runnable_exact_example =
    runnable_exact (friday + hour) (three_tasks false) (refl, (refl, (refl, tt)))

-- Task 0 before its run, and the tasks once it is running
abbrev idle : Task
idle = record (new_task 1 seconds 0) { next_run_at = friday }

abbrev begun : ℕ → Task
begun a =
    if a == 0
    then record idle { run_lock = 1; last_run_at = some (friday + 1); running = true; count = 1 }
    else overdue false a

abbrev with_begun : Scheduler
with_begun = record (three_tasks false) { heap = begun }

running_task_starves_example :
    (friday ≡ friday) × ((get_runnable_tasks (friday + hour) with_begun).0 ≡ [])
unfolding new_task run_begin
running_task_starves_example =
    running_task_starves (friday + hour) (friday + 1) with_begun (2 ∷ []) (1 ∷ []) 0 idle refl refl
      (omega arith) (omega arith)

abbrev started : Scheduler
started = record (new_scheduler (overdue false)) { running = true; loops = 1 }

scheduler-IsSound_example : IsSound started
unfolding new_scheduler start
scheduler-IsSound_example =
    scheduler-IsSound (overdue false)
      (Lifecycle.next Lifecycle.here (Lifecycle.starts started refl))

abbrev signalled : Scheduler
signalled = record started { quit = 1 }

stopped_for_good_example :
    (is_running (add 7 (quit_loop signalled)) ≡ true)
    × (start (add 7 (quit_loop signalled)) ≡ none)
    × ((add 7 (quit_loop signalled)).loops ≡ 0)
    × ((stop (add 7 (quit_loop signalled)) ≡ blocked)
        ⊎ ((u : Scheduler) × (stop (add 7 (quit_loop signalled)) ≡ stopping u)
            × (stop u ≡ blocked)))
unfolding new_scheduler
stopped_for_good_example =
    stopped_for_good signalled (add 7 (quit_loop signalled)) refl refl refl
      (Lifecycle.next Lifecycle.here (Lifecycle.adds 7))
