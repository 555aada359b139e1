-- ===== src/Tasks/Task/Runs.antt =====
-- Runs of one task from any number of goroutines: `Run` of tasks/task.go.
use dolly.Prelude.{ℕ, ◌+◌, ◌-◌, ◌%◌, ◌^◌, ◌≤◌, ◌<◌, ◌≡◌, none, some, arith, ◌==◌}
use dolly.Tasks.Task.{Task, TimeUnit, new_task, run_begin, run_end}

-- A task, the number of its callbacks that run now, and of those that were ever started.
pub record Runner : Type 0 where
  pub j : Task
  pub active : ℕ
  pub started : ℕ

pub data Step (r : Runner) : Runner → Type 0 where
  begins :
      (now : ℕ) (j : Task)
      → run_begin now r.j ≡ some j
      → Step r (record { j = j; active = r.active + 1; started = r.started + 1 })
  gives_up : (now : ℕ) → run_begin now r.j ≡ none → Step r r
  ends : (now : ℕ) → 0 < r.active → Step r (record r { j = run_end now r.j; active = r.active - 1 })

pub data Reach (s : Runner) : Runner → Type 0 where
  here : Reach s s
  next : {r v : Runner} → Reach s r → Step r v → Reach s v

pub record IsExclusive (r : Runner) : Type 0 where
  pub one_at_most : r.active ≤ 1
  pub locked : r.j.run_lock ≡ r.active
  pub flagged : r.j.running ≡ (r.active == 1)
  pub counted : r.j.count ≡ r.started % 2 ^ 32

abbrev pub fresh : ℕ → TimeUnit → ℕ → Runner
fresh interval unit start = record { j = new_task interval unit start; active = 0; started = 0 }

fresh-IsExclusive :
    (interval : ℕ) (unit : TimeUnit) (start : ℕ) → IsExclusive (fresh interval unit start)
unfolding new_task
fresh-IsExclusive interval unit start = ground arith

begin-IsExclusive :
    (now : ℕ) (r : Runner) (j : Task)
    → run_begin now r.j ≡ some j
    → IsExclusive r
    → IsExclusive (record { j = j; active = r.active + 1; started = r.started + 1 })
unfolding run_begin
begin-IsExclusive now r j e x = ground arith

Step-IsExclusive : {r v : Runner} → Step r v → IsExclusive r → IsExclusive v
unfolding run_end
Step-IsExclusive {r} (begins now j e) x = begin-IsExclusive now r j e x
Step-IsExclusive (gives_up now e) x = x
Step-IsExclusive (ends now h) x = ground arith

Reach-IsExclusive : {s r : Runner} → IsExclusive s → Reach s r → IsExclusive r
Reach-IsExclusive x here = x
Reach-IsExclusive x (next p st) = Step-IsExclusive st (Reach-IsExclusive x p)

-- However many goroutines call `Run` on a new task, and however their calls interleave: at most one
-- callback runs at a time, the lock is taken and the task marked as running exactly while it runs,
-- and the counter is the number of runs started, modulo 2^32.
pub runs_exclude :
    (interval : ℕ) (unit : TimeUnit) (start : ℕ) {r : Runner}
    → Reach (fresh interval unit start) r
    → IsExclusive r
runs_exclude interval unit start p = Reach-IsExclusive (fresh-IsExclusive interval unit start) p
