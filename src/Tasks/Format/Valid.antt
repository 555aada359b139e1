-- ===== src/Tasks/Format/Valid.antt =====
-- The tasks that `parseTaskFormat` accepts.
use dolly.Prelude.{
  ℕ, ◌<◌, ◌^◌, ◌≡◌, ◌≢◌, refl, false, none, some, List, [], ◌∷◌, Str, arith, Option-cases, inl, inr,
  ap, sym, ◌∙◌,
}
use dolly.GoText.{split, to_lower}
use dolly.Tasks.Task.{never, Task, new_task, at}
use dolly.GoText.Numbers.{parse_uint}
use dolly.Tasks.Format.{
  weekday_word, other_word, parse_word, parse_words, finish_format, parse_task_format,
}

-- What holds of the task while the words are read.
record IsPartial (j : Task) : Type 0 where
  fits : j.interval < 2 ^ 64
  on_day : j.start_day < 7
  not_run : (j.count ≡ 0) × (j.next_run_at ≡ 0) × (j.period ≡ 0)
  unlocked : (j.run_lock ≡ 0) × (j.running ≡ false)

parse_uint_fits : (t : Str) (n : ℕ) → parse_uint t ≡ some n → n < 2 ^ 64
unfolding parse_uint
parse_uint_fits [] n h = cc
parse_uint_fits (c ∷ s) n h = ground arith

weekday_word_lt : (t : Str) (d : ℕ) → weekday_word t ≡ some d → d < 7
unfolding weekday_word
weekday_word_lt t d h = ground arith

other_word-IsPartial :
    (now : ℕ) (t : Str) (j j' : Task) → other_word now t j ≡ some j' → IsPartial j → IsPartial j'
unfolding other_word at
other_word-IsPartial now t j j' h p = ground (arith, parse_uint_fits t j'.interval)

parse_word-IsPartial :
    (now : ℕ) (t : Str) (j j' : Task) → parse_word now t j ≡ some j' → IsPartial j → IsPartial j'
unfolding parse_word
parse_word-IsPartial now t j j' h p =
    ground (arith, weekday_word_lt t j'.start_day, other_word-IsPartial now t j j')

parse_words-none : (now : ℕ) (ts : List Str) → parse_words now ts none ≡ none
unfolding parse_words
parse_words-none now [] = refl
parse_words-none now (t ∷ ts) = refl

parse_words-IsPartial :
    (now : ℕ) (ts : List Str) (j j' : Task)
    → parse_words now ts (some j) ≡ some j'
    → IsPartial j
    → IsPartial j'
unfolding parse_words
parse_words-IsPartial now [] j j' h p = ground arith
parse_words-IsPartial now (t ∷ ts) j j' h p = elim (Option-cases (parse_word now t j)) [
  | inl e ↦ cc (e, ap (parse_words now ts) e, parse_words-none now ts)
  | inr (k, e) ↦
      parse_words-IsPartial now ts k j' (ap (parse_words now ts) (sym e) ∙ h)
        (parse_word-IsPartial now t j k e p)
]

-- A task that `parseTaskFormat` may return.
pub record IsFormatted (j : Task) : Type 0 where
  pub has_unit : j.unit ≢ never
  pub positive : 0 < j.interval
  pub fits : j.interval < 2 ^ 64
  pub on_day : j.start_day < 7
  pub not_run : (j.count ≡ 0) × (j.next_run_at ≡ 0) × (j.period ≡ 0)
  pub unlocked : (j.run_lock ≡ 0) × (j.running ≡ false)

-- Whatever the format string, a task that is accepted has a unit, a positive 64-bit interval and a
-- day of the week, and has not run.
pub parse-IsFormatted :
    (now : ℕ) (format : Str) (j : Task) → parse_task_format now format ≡ some j → IsFormatted j
unfolding parse_task_format
parse-IsFormatted now format j h =
    elim (Option-cases
      (parse_words now (split (to_lower format) b' ') (some (new_task 0 never 0)))) [
        | inl e ↦ cc (e, h)
        | inr (k, e) ↦
            let p =
              parse_words-IsPartial now (split (to_lower format) b' ') (new_task 0 never 0) k e
                (unfold new_task in ground arith) in
            finished k (rw e at h) p
      ]
  where
    finished : (k : Task) → finish_format (some k) ≡ some j → IsPartial k → IsFormatted j
    finished k h p = ground arith
