-- ===== src/Tasks/Format/Numbers.antt =====
-- Formats with an interval, against `NewTaskAtIntervals` of tasks/task.go.
use dolly.Prelude.{
  ℕ, ◌+◌, ◌-◌, ◌*◌, ◌≤◌, ◌<◌, ◌≡◌, ◌≢◌, ◌⊎◌, refl, ap, ◌∙◌, false, none, some, [], ◌∷◌, Str, codes,
  str_eq, str_eq_iff, arith, Bool-cases, inl, inr,
}
use dolly.GoText.{split, to_lower, contains}
use dolly.Tasks.Task.{TimeUnit, never, Task, new_task, new_task_at_intervals}
use dolly.GoText.Numbers.{digits, parse_uint}
use dolly.Tasks.Format.{
  unit_word, weekday_word, other_word, parse_word, parse_words, parse_task_format,
}
use dolly.Tasks.Format.Words.{parse_words-cons}

digits_no_colon : (n : ℕ) (t : Str) (v : ℕ) → digits n t ≡ some v → contains t (codes ":") ≡ false
unfolding digits contains
digits_no_colon n [] v h = refl
digits_no_colon n (c ∷ t) v h = ground (arith, digits_no_colon (n * 10 + (c - b'0')) t v)

number_no_colon : (t : Str) (v : ℕ) → parse_uint t ≡ some v → contains t (codes ":") ≡ false
unfolding parse_uint
number_no_colon [] v h = cc
number_no_colon (c ∷ t) v h = digits_no_colon 0 (c ∷ t) v (ground arith)

not_number : (t k : Str) (v : ℕ) → parse_uint t ≡ some v → parse_uint k ≡ none → str_eq t k ≡ false
not_number t k v h p = elim (Bool-cases (str_eq t k)) [
  | inl e ↦ cc (h, p, ap parse_uint ((str_eq_iff t k).0 e))
  | inr e ↦ e
]

-- No word of the format is a number.
unit_word-number : (t : Str) (v : ℕ) → parse_uint t ≡ some v → unit_word t ≡ none
unfolding unit_word parse_uint
unit_word-number t v h = simp (
  not_number t (codes "second") v h refl,
  not_number t (codes "seconds") v h refl,
  not_number t (codes "minute") v h refl,
  not_number t (codes "minutes") v h refl,
  not_number t (codes "hour") v h refl,
  not_number t (codes "hours") v h refl,
  not_number t (codes "day") v h refl,
  not_number t (codes "days") v h refl,
  not_number t (codes "week") v h refl,
  not_number t (codes "weeks") v h refl,
)

weekday_word-number : (t : Str) (v : ℕ) → parse_uint t ≡ some v → weekday_word t ≡ none
unfolding weekday_word parse_uint
weekday_word-number t v h = simp (
  not_number t (codes "monday") v h refl,
  not_number t (codes "tuesday") v h refl,
  not_number t (codes "wednesday") v h refl,
  not_number t (codes "thursday") v h refl,
  not_number t (codes "friday") v h refl,
  not_number t (codes "saturday") v h refl,
  not_number t (codes "sunday") v h refl,
)

parse_word-number :
    (now : ℕ) (t : Str) (v : ℕ) (j : Task)
    → parse_uint t ≡ some v
    → 0 < v
    → j.interval ≤ 1
    → parse_word now t j ≡ some (record j { interval = v })
unfolding parse_word other_word
parse_word-number now t v j h p q =
    let not_every : str_eq t (codes "every") ≡ false =
      not_number t (codes "every") v h (unfold parse_uint in refl) in
    rw (not_every, unit_word-number t v h, weekday_word-number t v h, number_no_colon t v h, h)
      (ground arith)

parse_word-unit :
    (now : ℕ) (w : Str) (u : TimeUnit) (j : Task)
    → unit_word w ≡ some u
    → parse_word now w j ≡ some (record j { unit = u })
unfolding parse_word
parse_word-unit now w u j h = elim (Bool-cases (str_eq w (codes "every"))) [
  | inl e ↦ cc (h, ap unit_word ((str_eq_iff w (codes "every")).0 e), every_no_unit)
  | inr e ↦ rw (e, h)
]
  where
    every_no_unit : unit_word (codes "every") ≡ none
    every_no_unit = unfold unit_word str_eq in refl

unit_word-never : (w : Str) (u : TimeUnit) → unit_word w ≡ some u → u ≢ never
unfolding unit_word
unit_word-never w u h = ground arith

-- A format of a positive number and a unit, alone or behind "every", is the task of
-- `NewTaskAtIntervals` with that number and unit, at any time.
pub interval_format :
    (now : ℕ) (format n w : Str) (v : ℕ) (u : TimeUnit)
    → (split (to_lower format) b' ' ≡ n ∷ w ∷ [])
      ⊎ (split (to_lower format) b' ' ≡ codes "every" ∷ n ∷ w ∷ [])
    → parse_uint n ≡ some v
    → 0 < v
    → unit_word w ≡ some u
    → parse_task_format now format ≡ some (new_task_at_intervals v u)
unfolding parse_task_format new_task_at_intervals
interval_format now format n w v u (inl e) h p k =
    let words =
      parse_words-cons now n (w ∷ []) (new_task 0 never 0) (some (new_task v never 0))
        (unfold new_task in parse_word-number now n v (new_task 0 never 0) h p (omega arith))
      ∙ parse_words-cons now w [] (new_task v never 0) (some (new_task v u 0))
          (unfold new_task in parse_word-unit now w u (new_task v never 0) k) in
    rw (e, words) (unfold parse_words new_task in ground (arith, unit_word-never w u k))
interval_format now format n w v u (inr e) h p k =
    let words =
      parse_words-cons now (codes "every") (n ∷ w ∷ []) (new_task 0 never 0)
        (some (new_task 1 never 0)) (unfold parse_word str_eq new_task in refl)
      ∙ parse_words-cons now n (w ∷ []) (new_task 1 never 0) (some (new_task v never 0))
          (unfold new_task in parse_word-number now n v (new_task 1 never 0) h p (omega arith))
      ∙ parse_words-cons now w [] (new_task v never 0) (some (new_task v u 0))
          (unfold new_task in parse_word-unit now w u (new_task v never 0) k) in
    rw (e, words) (unfold parse_words new_task in ground (arith, unit_word-never w u k))
