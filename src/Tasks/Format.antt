-- ===== src/Tasks/Format.antt =====
-- `parseTimeFormat` and `parseTaskFormat` of tasks/task.go. An error is `none`. The cases of the
-- `switch` that share a body are grouped: `unit_word` and `weekday_word`.
pub mod Numbers
pub mod Valid
pub mod Words
use dolly.Prelude.{
  ℕ, ◌+◌, ◌-◌, ◌*◌, ◌^◌, ◌≡◌, Bool, true, false, not, ◌&&◌, ◌||◌, Option, none, some, List, [], ◌∷◌,
  Str, codes, str_eq, ltb, leb, ◌==◌, if◌then◌else◌,
}
use dolly.GoText.{split, contains, to_lower}
use dolly.GoText.Numbers.{parse_uint, Signed, atoi}
use dolly.Tasks.Task.{TimeUnit, never, seconds, minutes, hours, days, weeks, Task, new_task, at}

-- `n < 0 || n > limit`
abbrev out_of : ℕ → Signed → Bool
out_of limit n = (n.minus && ltb 0 n.value) || ltb limit n.value

abbrev checked_time : Option Signed → Option Signed → Option (ℕ × ℕ)
checked_time none m = none
checked_time (some h) none = none
checked_time (some h) (some m) =
    if out_of 23 h || out_of 59 m then none else some (h.value, m.value)

abbrev time_parts : List Str → Option (ℕ × ℕ)
time_parts (h ∷ m ∷ []) = checked_time (atoi h) (atoi m)
time_parts _ = none

-- `parseTimeFormat`
unfoldable pub parse_time_format : Str → Option (ℕ × ℕ)
parse_time_format t = time_parts (split t b':')

unfoldable pub unit_word : Str → Option TimeUnit
unit_word t =
    if str_eq t (codes "second") || str_eq t (codes "seconds")
    then some seconds
    else if str_eq t (codes "minute") || str_eq t (codes "minutes")
    then some minutes
    else if str_eq t (codes "hour") || str_eq t (codes "hours")
    then some hours
    else if str_eq t (codes "day") || str_eq t (codes "days")
    then some days
    else if str_eq t (codes "week") || str_eq t (codes "weeks")
    then some weeks
    else none

unfoldable pub weekday_word : Str → Option ℕ
weekday_word t =
    if str_eq t (codes "monday")
    then some 1
    else if str_eq t (codes "tuesday")
    then some 2
    else if str_eq t (codes "wednesday")
    then some 3
    else if str_eq t (codes "thursday")
    then some 4
    else if str_eq t (codes "friday")
    then some 5
    else if str_eq t (codes "saturday")
    then some 6
    else if str_eq t (codes "sunday")
    then some 0
    else none

abbrev pub is_never : TimeUnit → Bool
is_never never = true
is_never _ = false

-- The unit that a time of day leaves: days unless one is given, which must be days or weeks.
abbrev pub time_unit : TimeUnit → Option TimeUnit
time_unit never = some days
time_unit days = some days
time_unit weeks = some weeks
time_unit _ = none

abbrev at_time : ℕ → ℕ × ℕ → Task → Option TimeUnit → Option Task
at_time now (h, m) j none = none
at_time now (h, m) j (some unit) = some (at now h m (record j { unit = unit }))

abbrev time_word : ℕ → Option (ℕ × ℕ) → Task → Option Task
time_word now none j = none
time_word now (some hm) j = at_time now hm j (time_unit j.unit)

abbrev pub with_interval : Option ℕ → Task → Option Task
with_interval none j = none
with_interval (some n) j = if ltb n 1 then none else some (record j { interval = n })

-- The `default` case of the `switch`.
unfoldable pub other_word : ℕ → Str → Task → Option Task
unfolding at
other_word now t j =
    if contains t (codes ":")
    then time_word now (parse_time_format t) j
    else if ltb 1 j.interval
    then none
    else with_interval (parse_uint t) j

abbrev on_weekday : ℕ → Task → Option Task
on_weekday day j =
    if ltb 1 j.interval || not (is_never j.unit)
    then none
    else some (record j { unit = weeks; start_day = day })

abbrev named_word : Option TimeUnit → Option ℕ → Task → Option Task → Option Task
named_word (some unit) w j rest = some (record j { unit = unit })
named_word none (some day) j rest = on_weekday day j
named_word none none j rest = rest

-- The `switch` on one word.
unfoldable pub parse_word : ℕ → Str → Task → Option Task
parse_word now t j =
    if str_eq t (codes "every")
    then (if ltb 0 j.interval then none else some (record j { interval = 1 }))
    else named_word (unit_word t) (weekday_word t) j (other_word now t j)

-- The loop over the words, from the task so far; an error stays an error.
unfoldable pub parse_words : ℕ → List Str → Option Task → Option Task
parse_words now ts none = none
parse_words now [] (some j) = some j
parse_words now (t ∷ ts) (some j) = parse_words now ts (parse_word now t j)

abbrev pub finish_format : Option Task → Option Task
finish_format none = none
finish_format (some j) =
    let j' = if j.interval == 0 then record j { interval = 1 } else j in
    if is_never j'.unit then none else some j'

-- `parseTaskFormat`
unfoldable pub parse_task_format : ℕ → Str → Option Task
unfolding parse_words new_task
parse_task_format now format =
    finish_format (parse_words now (split (to_lower format) b' ') (some (new_task 0 never 0)))
