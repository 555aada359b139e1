-- ===== src/Tasks/Scheduler.antt =====
-- tasks/scheduler.go. Tasks are pointers: `tasks` holds addresses in `heap`. `quit` counts the values
-- in the channel, whose capacity is 1, and `loops` the ticker goroutines that run. The mutex makes
-- each method one step. `sort.Sort` is an insertion sort; equal times may come out in another order
-- in the program.
pub mod Runnable
pub mod Lifecycle
use dolly.Prelude.{
  ℕ, zero, suc, ◌+◌, ◌-◌, ◌<◌, ◌≡◌, Bool, true, false, not, Option, none, some, List, [], ◌∷◌, ◌++◌,
  ltb, leb, ◌==◌, if◌then◌else◌, length, get_elem?, set,
}
use dolly.Tasks.Task.{Task, should_run, run_begin}

pub record Scheduler : Type 0 where
  pub tasks : List ℕ
  pub heap : ℕ → Task
  pub running : Bool
  pub quit : ℕ
  pub loops : ℕ

-- `NewScheduler`
unfoldable pub new_scheduler : (ℕ → Task) → Scheduler
new_scheduler heap = record { tasks = []; heap = heap; running = false; quit = 0; loops = 0 }

-- `Count`, and `Len` for `sort.Interface`
unfoldable pub count : Scheduler → ℕ
count s = length s.tasks

abbrev exchange : ℕ → ℕ → Scheduler → Option ℕ → Option ℕ → Option Scheduler
exchange i j s none b = none
exchange i j s (some a) none = none
exchange i j s (some a) (some b) = some (record s { tasks = set (set s.tasks i b) j a })

-- `Swap`; an index out of range is a panic, `none`.
unfoldable pub swap : ℕ → ℕ → Scheduler → Option Scheduler
swap i j s = exchange i j s (get_elem? s.tasks i) (get_elem? s.tasks j)

abbrev pub next_of : (ℕ → Task) → ℕ → ℕ
next_of heap a = (heap a).next_run_at

-- `Less`, on two tasks
unfoldable pub less : (ℕ → Task) → ℕ → ℕ → Bool
less heap a b = ltb (next_of heap a) (next_of heap b)

insert_task : (ℕ → Task) → ℕ → List ℕ → List ℕ
insert_task heap a [] = a ∷ []
insert_task heap a (b ∷ l) =
    let rest = insert_task heap a l in if less heap b a then b ∷ rest else a ∷ b ∷ l

-- `sort.Sort(s)`
unfoldable pub sort : (ℕ → Task) → List ℕ → List ℕ
unfolding insert_task less
sort heap [] = []
sort heap (a ∷ l) = insert_task heap a (sort heap l)

-- for _, j := range s.tasks { if j.ShouldRun() { append } else { break } }
unfoldable pub take_runnable : (ℕ → Task) → ℕ → List ℕ → List ℕ
take_runnable heap now [] = []
take_runnable heap now (a ∷ l) =
    let rest = take_runnable heap now l in if should_run now (heap a) then a ∷ rest else []

-- `getRunnableTasks`
unfoldable pub get_runnable_tasks : ℕ → Scheduler → List ℕ × Scheduler
unfolding sort take_runnable
get_runnable_tasks now s =
    let s' = record s { tasks = sort s.heap s.tasks } in (take_runnable s.heap now s'.tasks, s')

-- `getAllTasks`
unfoldable pub get_all_tasks : Scheduler → List ℕ
get_all_tasks s = s.tasks

-- `Add`
unfoldable pub add : ℕ → Scheduler → Scheduler
add a s = record s { tasks = s.tasks ++ a ∷ [] }

-- `Clear`
unfoldable pub clear : Scheduler → Scheduler
clear s = record s { tasks = [] }

-- `IsRunning`
unfoldable pub is_running : Scheduler → Bool
is_running s = s.running

-- `Start`; `none` is the error "already running".
unfoldable pub start : Scheduler → Option Scheduler
start s = if s.running then none else some (record s { running = true; loops = s.loops + 1 })

pub data Stopped : Type 0 where
  not_running : Stopped
  stopping : Scheduler → Stopped
  -- the send to the full channel waits, with the lock held
  blocked : Stopped

-- `Stop`
unfoldable pub stop : Scheduler → Stopped
stop s =
    if not s.running
    then not_running
    else if ltb s.quit 1
    then stopping (record s { quit = s.quit + 1 })
    else blocked

-- The case `<-s.quit` of the loop's goroutine, which ends it.
unfoldable pub quit_loop : Scheduler → Scheduler
quit_loop s = record s { quit = s.quit - 1; loops = s.loops - 1 }

abbrev pub store : ℕ → Option Task → Scheduler → Scheduler
store a none s = s
store a (some j) s = record s { heap = λ b. if b == a then j else s.heap b }

-- One `go task.Run()` of `runPending`, up to the callback.
unfoldable pub begin_task : ℕ → ℕ → Scheduler → Scheduler
begin_task now a s = store a (run_begin now (s.heap a)) s

begin_all : ℕ → List ℕ → Scheduler → Scheduler
begin_all now [] s = s
begin_all now (a ∷ l) s = begin_all now l (begin_task now a s)

-- `runPending`, with the goroutines that it starts taken up to their callbacks, in order.
unfoldable pub run_pending : ℕ → Scheduler → Scheduler
unfolding get_runnable_tasks begin_task begin_all
run_pending now s = let (runnable, s') = get_runnable_tasks now s in begin_all now runnable s'
