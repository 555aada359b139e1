-- ===== src/Tasks/Format/Words.antt =====
-- Formats with words for days and times of day, against the constructors of tasks/task.go.
use dolly.Prelude.{
  ℕ, ◌≤◌, ◌≡◌, refl, ap, sym, ◌∙◌, true, false, Option, none, some, List, [], ◌∷◌, ◌++◌, Str, codes,
  str_eq, str_eq_iff, arith, Bool-cases, inl, inr, ◌⊎◌,
}
use mathlib.Core.Path.{subst}
use dolly.GoText.{split, to_lower, contains}
use dolly.Tasks.Task.{
  TimeUnit, never, days, weeks, Task, new_task, at, new_task_on_weekday, new_task_daily,
}
use dolly.GoText.Numbers.{parse_uint}
use dolly.Tasks.Format.{
  parse_time_format, time_parts, unit_word, weekday_word, other_word, parse_word, parse_words,
  parse_task_format, time_unit,
}

parse_words-append :
    (now : ℕ) (before rest : List Str) (m : Option Task)
    → parse_words now (before ++ rest) m ≡ parse_words now rest (parse_words now before m)
unfolding parse_words
parse_words-append now [] rest none = refl
parse_words-append now [] rest (some j) = refl
parse_words-append now (t ∷ before) [] none = refl
parse_words-append now (t ∷ before) (u ∷ rest) none = refl
parse_words-append now (t ∷ before) rest (some j) =
    parse_words-append now before rest (parse_word now t j)

parse_word-at : (now : ℕ) (j : Task) → parse_word now (codes "at") j ≡ none
unfolding parse_word unit_word weekday_word other_word contains parse_uint str_eq
parse_word-at now j = ground arith

parse_words-none : (now : ℕ) (ts : List Str) → parse_words now ts none ≡ none
unfolding parse_words
parse_words-none now [] = refl
parse_words-none now (t ∷ ts) = refl

pub parse_words-cons :
    (now : ℕ) (t : Str) (ts : List Str) (j : Task) (m : Option Task)
    → parse_word now t j ≡ m
    → parse_words now (t ∷ ts) (some j) ≡ parse_words now ts m
unfolding parse_words
parse_words-cons now t ts j m e = ap (parse_words now ts) e

parse_words-at :
    (now : ℕ) (after : List Str) (m : Option Task) → parse_words now (codes "at" ∷ after) m ≡ none
parse_words-at now after none = parse_words-none now (codes "at" ∷ after)
parse_words-at now after (some j) =
    parse_words-cons now (codes "at") after j none (parse_word-at now j)
    ∙ parse_words-none now after

-- A format with the word "at" is never accepted, whatever stands before and after it.
pub at_word_rejected :
    (now : ℕ) (format : Str) (before after : List Str)
    → split (to_lower format) b' ' ≡ before ++ codes "at" ∷ after
    → parse_task_format now format ≡ none
unfolding parse_task_format
at_word_rejected now format before after e =
    rw (e, parse_words-append now before (codes "at" ∷ after), parse_words-at now after)

-- A text without a colon is one part.
split_of_no_colon : (t : Str) → contains t (codes ":") ≡ false → split t b':' ≡ t ∷ []
unfolding split contains
split_of_no_colon [] h = refl
split_of_no_colon (c ∷ t) h = ground (arith, split_of_no_colon t)

time_has_colon :
    (t : Str) (hm : ℕ × ℕ) → parse_time_format t ≡ some hm → contains t (codes ":") ≡ true
unfolding parse_time_format
time_has_colon t hm h = elim (Bool-cases (contains t (codes ":"))) [
  | inl e ↦ e
  | inr e ↦ cc (h, ap time_parts (split_of_no_colon t e))
]

not_word :
    (t k : Str)
    → contains t (codes ":") ≡ true
    → contains k (codes ":") ≡ false
    → str_eq t k ≡ false
not_word t k h p = elim (Bool-cases (str_eq t k)) [
  | inl e ↦ cc (h, p, ap (λ (s : Str). contains s (codes ":")) ((str_eq_iff t k).0 e))
  | inr e ↦ e
]

-- No word of the format has a colon.
unit_word-colon : (t : Str) → contains t (codes ":") ≡ true → unit_word t ≡ none
unfolding unit_word contains
unit_word-colon t h = simp (
  not_word t (codes "second") h refl,
  not_word t (codes "seconds") h refl,
  not_word t (codes "minute") h refl,
  not_word t (codes "minutes") h refl,
  not_word t (codes "hour") h refl,
  not_word t (codes "hours") h refl,
  not_word t (codes "day") h refl,
  not_word t (codes "days") h refl,
  not_word t (codes "week") h refl,
  not_word t (codes "weeks") h refl,
)

weekday_word-colon : (t : Str) → contains t (codes ":") ≡ true → weekday_word t ≡ none
unfolding weekday_word contains
weekday_word-colon t h = simp (
  not_word t (codes "monday") h refl,
  not_word t (codes "tuesday") h refl,
  not_word t (codes "wednesday") h refl,
  not_word t (codes "thursday") h refl,
  not_word t (codes "friday") h refl,
  not_word t (codes "saturday") h refl,
  not_word t (codes "sunday") h refl,
)

-- A text with a colon is read as a time of day.
parse_word-colon :
    (now : ℕ) (t : Str) (j : Task)
    → contains t (codes ":") ≡ true
    → parse_word now t j ≡ other_word now t j
unfolding parse_word
parse_word-colon now t j h =
    let not_every : str_eq t (codes "every") ≡ false =
      not_word t (codes "every") h (unfold contains in refl) in
    rw (not_every, unit_word-colon t h, weekday_word-colon t h)

-- A name of a day is no other word of the format.
IsDayName : Str → Type 0
IsDayName w = (str_eq w (codes "every") ≡ false) × (unit_word w ≡ none)

same_text : (P : Str → Type 0) (w k : Str) → str_eq w k ≡ true → P k → P w
same_text P w k e p = subst P (sym ((str_eq_iff w k).0 e)) p

weekday_word-IsDayName : (w : Str) (d : ℕ) → weekday_word w ≡ some d → IsDayName w
unfolding IsDayName unit_word str_eq
weekday_word-IsDayName w d h = elim (Bool-cases (str_eq w (codes "monday"))) [
  | inl e ↦ same_text IsDayName w (codes "monday") e (refl, refl)
  | inr n0 ↦ elim (Bool-cases (str_eq w (codes "tuesday"))) [
    | inl e ↦ same_text IsDayName w (codes "tuesday") e (refl, refl)
    | inr n1 ↦ elim (Bool-cases (str_eq w (codes "wednesday"))) [
      | inl e ↦ same_text IsDayName w (codes "wednesday") e (refl, refl)
      | inr n2 ↦ elim (Bool-cases (str_eq w (codes "thursday"))) [
        | inl e ↦ same_text IsDayName w (codes "thursday") e (refl, refl)
        | inr n3 ↦ elim (Bool-cases (str_eq w (codes "friday"))) [
          | inl e ↦ same_text IsDayName w (codes "friday") e (refl, refl)
          | inr n4 ↦ elim (Bool-cases (str_eq w (codes "saturday"))) [
            | inl e ↦ same_text IsDayName w (codes "saturday") e (refl, refl)
            | inr n5 ↦ elim (Bool-cases (str_eq w (codes "sunday"))) [
              | inl e ↦ same_text IsDayName w (codes "sunday") e (refl, refl)
              | inr n6 ↦ absurd (not_a_day h n0 n1 n2 n3 n4 n5 n6)
            ]
          ]
        ]
      ]
    ]
  ]
]
  where
    not_a_day :
        weekday_word w ≡ some d
        → str_eq w (codes "monday") ≡ false
        → str_eq w (codes "tuesday") ≡ false
        → str_eq w (codes "wednesday") ≡ false
        → str_eq w (codes "thursday") ≡ false
        → str_eq w (codes "friday") ≡ false
        → str_eq w (codes "saturday") ≡ false
        → str_eq w (codes "sunday") ≡ false
        → ⊥
    not_a_day h a b c d e f g = unfold weekday_word in ground arith

parse_word-time :
    (now : ℕ) (t : Str) (h m : ℕ) (j : Task) (u : TimeUnit)
    → parse_time_format t ≡ some (h, m)
    → time_unit j.unit ≡ some u
    → parse_word now t j ≡ some (at now h m (record j { unit = u }))
parse_word-time now t h m j u e v =
    let colon = time_has_colon t (h, m) e in
    parse_word-colon now t j colon ∙ (unfold other_word in rw (colon, e, v))

parse_word-weekday :
    (now : ℕ) (w : Str) (d : ℕ)
    → weekday_word w ≡ some d
    → parse_word now w (new_task 0 never 0) ≡ some (new_task 0 weeks d)
unfolding parse_word new_task IsDayName
parse_word-weekday now w d e = let only = weekday_word-IsDayName w d e in rw (only.0, only.1, e)

time_in_range : (t : Str) (h m : ℕ) → parse_time_format t ≡ some (h, m) → (h ≤ 23) × (m ≤ 59)
unfolding parse_time_format
time_in_range t h m e = parts (split t b':') e
  where
    parts : (ps : List Str) → time_parts ps ≡ some (h, m) → (h ≤ 23) × (m ≤ 59)
    parts [] e = cc
    parts (p ∷ []) e = cc
    parts (p ∷ q ∷ []) e = ground arith
    parts (p ∷ q ∷ r ∷ ps) e = cc

-- A format of a day's name and a time of day is the task of `NewTaskOnWeekday`.
pub weekday_format :
    (now : ℕ) (format w t : Str) (d h m : ℕ)
    → split (to_lower format) b' ' ≡ w ∷ t ∷ []
    → weekday_word w ≡ some d
    → parse_time_format t ≡ some (h, m)
    → parse_task_format now format ≡ new_task_on_weekday now d h m
unfolding parse_task_format new_task_on_weekday
weekday_format now format w t d h m e day time =
    let words =
      parse_words-cons now w (t ∷ []) (new_task 0 never 0) (some (new_task 0 weeks d))
        (parse_word-weekday now w d day)
      ∙ parse_words-cons now t [] (new_task 0 weeks d) _
          (parse_word-time now t h m (new_task 0 weeks d) weeks time (unfold new_task in refl)) in
    rw (e, words) (unfold parse_words new_task at in ground (arith, time_in_range t h m))

-- A format of a time of day, alone or behind "every day", is the task of `NewTaskDaily`.
pub daily_format :
    (now : ℕ) (format t : Str) (h m : ℕ)
    → (split (to_lower format) b' ' ≡ t ∷ [])
      ⊎ (split (to_lower format) b' ' ≡ codes "every" ∷ codes "day" ∷ t ∷ [])
    → parse_time_format t ≡ some (h, m)
    → parse_task_format now format ≡ new_task_daily now h m
unfolding parse_task_format new_task_daily
daily_format now format t h m (inl e) time =
    let words =
      parse_words-cons now t [] (new_task 0 never 0) _
        (parse_word-time now t h m (new_task 0 never 0) days time (unfold new_task in refl)) in
    rw (e, words) (unfold parse_words new_task at in ground (arith, time_in_range t h m))
daily_format now format t h m (inr e) time =
    let words =
      parse_words-cons now (codes "every") (codes "day" ∷ t ∷ []) (new_task 0 never 0)
        (some (new_task 1 never 0)) (unfold parse_word str_eq new_task in refl)
      ∙ parse_words-cons now (codes "day") (t ∷ []) (new_task 1 never 0) (some (new_task 1 days 0))
          (unfold parse_word unit_word str_eq new_task in refl)
      ∙ parse_words-cons now t [] (new_task 1 days 0) _
          (parse_word-time now t h m (new_task 1 days 0) days time (unfold new_task in refl)) in
    rw (e, words) (unfold parse_words new_task at in ground (arith, time_in_range t h m))
