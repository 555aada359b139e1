-- ===== src/Tasks/Scheduler/Runnable.antt =====
-- Which tasks a tick runs: `getRunnableTasks` of tasks/scheduler.go.
use mathlib.Core.List.{Perm}
use mathlib.Core.List.Perm
use mathlib.Core.Path.{subst}
use dolly.Prelude.{
  ℕ, ◌≤◌, ◌<◌, ◌≡◌, refl, ap, sym, some, true, false, List, [], ◌∷◌, ◌++◌, arith, All, Bool-cases,
  inl, inr,
}
use dolly.Tasks.Task.{Task, should_run, run_begin}
use dolly.Tasks.Scheduler.{
  Scheduler, next_of, less, insert_task, sort, take_runnable, get_runnable_tasks,
}

All-weaken : {P Q : ℕ → Type 0} (l : List ℕ) → ((x : ℕ) → P x → Q x) → All P l → All Q l
All-weaken [] f h = tt
All-weaken (x ∷ l) f h = (f x h.0, All-weaken l f h.1)

module _ (heap : ℕ → Task) where
  -- The tasks in the order of their next runs.
  abbrev pub IsSorted : List ℕ → Type 0
  IsSorted [] = Unit
  IsSorted (a ∷ l) = All (λ b. next_of heap a ≤ next_of heap b) l × IsSorted l

  All-insert_task :
      (P : ℕ → Type 0) (a : ℕ) (l : List ℕ) → P a → All P l → All P (insert_task heap a l)
  unfolding insert_task
  All-insert_task P a [] p h = (p, tt)
  All-insert_task P a (b ∷ l) p h = elim (Bool-cases (less heap b a)) [
    | inl t ↦ rw t (h.0, All-insert_task P a l p h.1)
    | inr f ↦ rw f (p, h)
  ]

  All-sort : (P : ℕ → Type 0) (l : List ℕ) → All P l → All P (sort heap l)
  unfolding sort
  All-sort P [] h = tt
  All-sort P (a ∷ l) h = All-insert_task P a (sort heap l) h.0 (All-sort P l h.1)

  less→lt : (a b : ℕ) → less heap a b ≡ true → next_of heap a < next_of heap b
  unfolding less
  less→lt a b h = ground arith

  not_less→le : (a b : ℕ) → less heap a b ≡ false → next_of heap b ≤ next_of heap a
  unfolding less
  not_less→le a b h = ground arith

  insert_task-IsSorted : (a : ℕ) (l : List ℕ) → IsSorted l → IsSorted (insert_task heap a l)
  unfolding insert_task
  insert_task-IsSorted a [] h = (tt, tt)
  insert_task-IsSorted a (b ∷ l) h = elim (Bool-cases (less heap b a)) [
    | inl t ↦
        let before : next_of heap b ≤ next_of heap a = omega (arith, less→lt b a t) in
        rw t (
          All-insert_task (λ c. next_of heap b ≤ next_of heap c) a l before h.0,
          insert_task-IsSorted a l h.1,
        )
    | inr f ↦
        let first = not_less→le b a f in rw f ((first, All-weaken l (λ c p. omega arith) h.0), h)
  ]

  insert_task-perm : (a : ℕ) (l : List ℕ) → Perm (insert_task heap a l) (a ∷ l)
  unfolding insert_task
  insert_task-perm a [] = Perm.refl (a ∷ [])
  insert_task-perm a (b ∷ l) = elim (Bool-cases (less heap b a)) [
    | inl t ↦ rw t (Perm.trans (Perm.cons b (insert_task-perm a l)) (Perm.swap a b l))
    | inr f ↦ rw f (Perm.refl (a ∷ b ∷ l))
  ]

  sort-perm : (l : List ℕ) → Perm (sort heap l) l
  unfolding sort
  sort-perm [] = Perm.refl []
  sort-perm (a ∷ l) = Perm.trans (insert_task-perm a (sort heap l)) (Perm.cons a (sort-perm l))

  sort-IsSorted : (l : List ℕ) → IsSorted (sort heap l)
  unfolding sort
  sort-IsSorted [] = tt
  sort-IsSorted (a ∷ l) = insert_task-IsSorted a (sort heap l) (sort-IsSorted l)

  -- The tasks before the first that should not run, and the others.
  take_runnable-split :
      (now : ℕ) (l : List ℕ)
      → (rest : List ℕ) × (take_runnable heap now l ++ rest ≡ l)
        × All (λ a. should_run now (heap a) ≡ true) (take_runnable heap now l)
  unfolding take_runnable
  take_runnable-split now [] = ([], refl, tt)
  take_runnable-split now (a ∷ l) = elim (Bool-cases (should_run now (heap a))) [
    | inl t ↦
        let (rest, e, h) = take_runnable-split now l in
        (rest, rw t (ap (λ r. a ∷ r) e), rw t (t, h))
    | inr f ↦ (a ∷ l, rw f, rw f tt)
  ]

  none_later :
      (now : ℕ) (a : ℕ) (l : List ℕ)
      → now ≤ next_of heap a
      → All (λ b. next_of heap a ≤ next_of heap b) l
      → All (λ b. should_run now (heap b) ≡ false) l
  unfolding should_run
  none_later now a l h = All-weaken l (λ b p. ground arith)

  take_runnable-rest :
      (now : ℕ) (l : List ℕ)
      → All (λ a. (heap a).running ≡ false) l
      → IsSorted l
      → (rest : List ℕ) × (take_runnable heap now l ++ rest ≡ l)
        × All (λ a. should_run now (heap a) ≡ true) (take_runnable heap now l)
        × All (λ a. should_run now (heap a) ≡ false) rest
  unfolding take_runnable
  take_runnable-rest now [] idle h = ([], refl, tt, tt)
  take_runnable-rest now (a ∷ l) idle h = elim (Bool-cases (should_run now (heap a))) [
    | inl t ↦
        let (rest, e, due, later) = take_runnable-rest now l idle.1 h.1 in
        (rest, rw t (ap (λ r. a ∷ r) e), rw t (t, due), later)
    | inr f ↦
        let not_due : now ≤ next_of heap a = unfold should_run in ground (arith, f, idle.0) in
        (a ∷ l, rw f, rw f tt, (f, none_later now a l not_due h.0))
  ]

  insert_task-min :
      (a : ℕ) (l : List ℕ)
      → All (λ b. next_of heap a < next_of heap b) l
      → insert_task heap a l ≡ a ∷ l
  unfolding insert_task less
  insert_task-min a [] h = refl
  insert_task-min a (b ∷ l) h = ground (arith, h.0)

  sort-min :
      (before after : List ℕ) (a : ℕ)
      → All (λ b. next_of heap a < next_of heap b) before
      → All (λ b. next_of heap a < next_of heap b) after
      → (r : List ℕ) × (sort heap (before ++ a ∷ after) ≡ a ∷ r)
  unfolding sort insert_task
  sort-min [] after a h k = (
    sort heap after,
    insert_task-min a (sort heap after) (All-sort (λ b. next_of heap a < next_of heap b) after k),
  )
  sort-min (x ∷ before) after a h k =
      let (r, e) = sort-min before after a h.1 k in
      let first : less heap a x ≡ true = unfold less in ground (arith, h.0) in
      (insert_task heap x r, rw (e, insert_task, first))

-- When no task is running, a tick runs exactly the tasks that are due: `getRunnableTasks` puts the
-- tasks in the order of their next runs, neither losing nor adding any, and returns a front part of
-- them; all tasks of that part should run now, and none of the others should.
pub runnable_exact :
    (now : ℕ) (s : Scheduler)
    → All (λ a. (s.heap a).running ≡ false) s.tasks
    → let (runnable, s') = get_runnable_tasks now s in
      Perm s'.tasks s.tasks
      × IsSorted s.heap s'.tasks
      × ((rest : List ℕ) × (runnable ++ rest ≡ s'.tasks)
          × All (λ a. should_run now (s.heap a) ≡ true) runnable
          × All (λ a. should_run now (s.heap a) ≡ false) rest)
unfolding get_runnable_tasks
runnable_exact now s idle = (
  sort-perm s.heap s.tasks,
  sort-IsSorted s.heap s.tasks,
  take_runnable-rest s.heap now (sort s.heap s.tasks)
      (All-sort s.heap (λ a. (s.heap a).running ≡ false) s.tasks idle)
      (sort-IsSorted s.heap s.tasks),
)

running_starves :
    (now : ℕ) (s : Scheduler) (before after : List ℕ) (a : ℕ)
    → s.tasks ≡ before ++ a ∷ after
    → (s.heap a).running ≡ true
    → All (λ b. next_of s.heap a < next_of s.heap b) before
    → All (λ b. next_of s.heap a < next_of s.heap b) after
    → (get_runnable_tasks now s).0 ≡ []
unfolding get_runnable_tasks take_runnable should_run
running_starves now s before after a e r h k =
    let (l, first) = sort-min s.heap before after a h k in rw (e, first, r)

run_begin-keeps :
    (start : ℕ) (j k : Task)
    → run_begin start j ≡ some k
    → (k.next_run_at ≡ j.next_run_at) × (k.running ≡ true)
unfolding run_begin
run_begin-keeps start j k h = (ground arith, ground arith)

-- A running task starves the others. In a run, from its begin on, the task keeps the due time that it had
-- before, and while that is earlier than those of all other tasks, a tick runs no task at all, however long
-- others have been due.
pub running_task_starves :
    (now start : ℕ) (s : Scheduler) (before after : List ℕ) (a : ℕ) (j : Task)
    → s.tasks ≡ before ++ a ∷ after
    → run_begin start j ≡ some (s.heap a)
    → All (λ b. j.next_run_at < next_of s.heap b) before
    → All (λ b. j.next_run_at < next_of s.heap b) after
    → (next_of s.heap a ≡ j.next_run_at) × ((get_runnable_tasks now s).0 ≡ [])
running_task_starves now start s before after a j e begun h k =
    let (same, running) = run_begin-keeps start j (s.heap a) begun in
    (
      same,
      running_starves now s before after a e running
          (subst (λ n. All (λ b. n < next_of s.heap b) before) (sym same) h)
          (subst (λ n. All (λ b. n < next_of s.heap b) after) (sym same) k),
    )
