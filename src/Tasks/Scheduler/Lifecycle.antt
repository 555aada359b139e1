-- ===== src/Tasks/Scheduler/Lifecycle.antt =====
-- Starting and stopping: `Start`, `Stop` and the loop's goroutine of tasks/scheduler.go.
use dolly.Prelude.{
  ℕ, ◌+◌, ◌≤◌, ◌<◌, ◌≡◌, refl, ◌∙◌, ◌⊎◌, inl, inr, [], ◌∷◌, ltb, Bool-cases, true, false, Option,
  none, some, List, arith,
}
use dolly.Tasks.Task.{Task, run_begin}
use dolly.Tasks.Scheduler.{
  Scheduler, new_scheduler, add, clear, is_running, start, stopping, blocked, stop, quit_loop,
  run_pending, get_runnable_tasks, begin_task, store, begin_all,
}

-- What happens to a scheduler: its methods, ticks of a loop that runs, and the end of that loop.
pub data Step (s : Scheduler) : Scheduler → Type 0 where
  adds : (a : ℕ) → Step s (add a s)
  clears : Step s (clear s)
  starts : (v : Scheduler) → start s ≡ some v → Step s v
  stops : (v : Scheduler) → stop s ≡ stopping v → Step s v
  ticks : (now : ℕ) → 0 < s.loops → Step s (run_pending now s)
  loop_ends : 0 < s.loops → 0 < s.quit → Step s (quit_loop s)
  -- a callback ends, or anything else happens to the tasks themselves
  tasks_change : (heap : ℕ → Task) → Step s (record s { heap = heap })

pub data Reach (s : Scheduler) : Scheduler → Type 0 where
  here : Reach s s
  next : {r v : Scheduler} → Reach s r → Step r v → Reach s v

-- The fields that tell how a scheduler's life goes on.
record SameLife (s v : Scheduler) : Type 0 where
  running : v.running ≡ s.running
  quit : v.quit ≡ s.quit
  loops : v.loops ≡ s.loops

store-SameLife : (a : ℕ) (j : Option Task) (s : Scheduler) → SameLife s (store a j s)
store-SameLife a none s = record { running = refl; quit = refl; loops = refl }
store-SameLife a (some j) s = record { running = refl; quit = refl; loops = refl }

SameLife-trans : {s u v : Scheduler} → SameLife s u → SameLife u v → SameLife s v
SameLife-trans p q = record {
  running = q.running ∙ p.running;
  quit = q.quit ∙ p.quit;
  loops = q.loops ∙ p.loops;
}

begin_all-SameLife : (now : ℕ) (l : List ℕ) (s : Scheduler) → SameLife s (begin_all now l s)
unfolding begin_all begin_task
begin_all-SameLife now [] s = record { running = refl; quit = refl; loops = refl }
begin_all-SameLife now (a ∷ l) s =
    SameLife-trans (store-SameLife a (run_begin now (s.heap a)) s)
      (begin_all-SameLife now l (begin_task now a s))

run_pending-SameLife : (now : ℕ) (s : Scheduler) → SameLife s (run_pending now s)
unfolding run_pending get_runnable_tasks
run_pending-SameLife now s =
    let (runnable, s') = get_runnable_tasks now s in
    let r = begin_all-SameLife now runnable s' in
    record { running = r.running; quit = r.quit; loops = r.loops }

-- At most one loop runs, and none before the start.
pub record IsSound (s : Scheduler) : Type 0 where
  pub one_loop : s.loops ≤ 1
  pub idle : s.running ≡ false → (s.loops ≡ 0) × (s.quit ≡ 0)
  pub one_quit : s.quit ≤ 1

start-IsSound : (s v : Scheduler) → start s ≡ some v → IsSound s → IsSound v
unfolding start
start-IsSound s v e h = ground arith

stop-IsSound : (s v : Scheduler) → stop s ≡ stopping v → IsSound s → IsSound v
unfolding stop
stop-IsSound s v e h = ground arith

Step-IsSound : {s v : Scheduler} → Step s v → IsSound s → IsSound v
unfolding add clear quit_loop
Step-IsSound (adds a) h = ground arith
Step-IsSound clears h = ground arith
Step-IsSound {s} {v} (starts _ e) h = start-IsSound s v e h
Step-IsSound {s} {v} (stops _ e) h = stop-IsSound s v e h
Step-IsSound {s} (ticks now k) h = let same = run_pending-SameLife now s in ground (arith, same)
Step-IsSound (loop_ends k q) h = ground arith
Step-IsSound (tasks_change heap) h = ground arith

Reach-IsSound : {s v : Scheduler} → IsSound s → Reach s v → IsSound v
Reach-IsSound h here = h
Reach-IsSound h (next r st) = Step-IsSound st (Reach-IsSound h r)

-- From a new scheduler, whatever is called and whatever the goroutines do, at most one loop runs and
-- at most one value is in the quit channel, and before the first start there is neither.
pub scheduler-IsSound : (heap : ℕ → Task) {v : Scheduler} → Reach (new_scheduler heap) v → IsSound v
unfolding new_scheduler
scheduler-IsSound heap r = Reach-IsSound (ground arith) r

-- A scheduler that is marked as running while no loop runs.
record IsDead (s : Scheduler) : Type 0 where
  marked : s.running ≡ true
  no_loop : s.loops ≡ 0

start-IsDead : (s v : Scheduler) → start s ≡ some v → IsDead s → IsDead v
unfolding start
start-IsDead s v e h = ground arith

stop-IsDead : (s v : Scheduler) → stop s ≡ stopping v → IsDead s → IsDead v
unfolding stop
stop-IsDead s v e h = ground arith

Step-IsDead : {s v : Scheduler} → Step s v → IsDead s → IsDead v
unfolding add clear quit_loop
Step-IsDead (adds a) h = ground arith
Step-IsDead clears h = ground arith
Step-IsDead {s} {v} (starts _ e) h = start-IsDead s v e h
Step-IsDead {s} {v} (stops _ e) h = stop-IsDead s v e h
Step-IsDead (ticks now p) h = absurd (omega (arith, h.no_loop))
Step-IsDead (loop_ends p q) h = absurd (omega (arith, h.no_loop))
Step-IsDead (tasks_change heap) h = ground arith

Reach-IsDead : {s v : Scheduler} → IsDead s → Reach s v → IsDead v
Reach-IsDead h here = h
Reach-IsDead h (next r st) = Step-IsDead st (Reach-IsDead h r)

-- Once the loop of a started scheduler has taken its stop signal, the scheduler is dead for good: it
-- still says that it is running, `Start` always fails, no loop runs again, and `Stop` blocks, or
-- succeeds once more and then blocks.
pub stopped_for_good :
    (s v : Scheduler)
    → s.running ≡ true
    → s.loops ≡ 1
    → s.quit ≡ 1
    → Reach (quit_loop s) v
    → (is_running v ≡ true)
      × (start v ≡ none)
      × (v.loops ≡ 0)
      × ((stop v ≡ blocked) ⊎ ((u : Scheduler) × (stop v ≡ stopping u) × (stop u ≡ blocked)))
unfolding start stop is_running quit_loop
stopped_for_good s v m l q r =
    let dead = Reach-IsDead (ground arith) r in
    (
      dead.marked,
      ground (arith, dead),
      dead.no_loop,
      elim (Bool-cases (ltb v.quit 1)) [
        | inl free ↦
            inr (record v { quit = v.quit + 1 }, ground (arith, dead), ground (arith, dead))
        | inr full ↦ inl (ground (arith, dead))
      ],
    )
