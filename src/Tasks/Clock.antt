-- ===== src/Tasks/Clock.antt =====
-- What tasks/task.go uses of Go's `time`. An instant is the number of nanoseconds since the start of
-- 1970; the location is UTC. A `time.Duration` is its 64-bit pattern, negative from 2^63 on.
use dolly.Prelude.{ℕ, ◌+◌, ◌-◌, ◌*◌, ◌/◌, ◌%◌, ◌^◌, ltb, if◌then◌else◌}

abbrev pub second : ℕ
second = 1000000000

abbrev pub minute : ℕ
minute = 60 * second

abbrev pub hour : ℕ
hour = 60 * minute

abbrev pub day : ℕ
day = 24 * hour

abbrev pub week : ℕ
week = 7 * day

abbrev pub word : ℕ
word = 2 ^ 64

-- `time.Duration(n) * unit`
abbrev pub times : ℕ → ℕ → ℕ
times n unit = (n * unit) % word

-- `t.Add(d)`; an instant before 1970 is cut off there.
abbrev pub add_duration : ℕ → ℕ → ℕ
add_duration t d = if ltb d (2 ^ 63) then t + d else t - (word - d)

-- `t.Weekday()`, Sunday being 0; the first day of 1970 was a Thursday.
abbrev pub weekday : ℕ → ℕ
weekday t = (t / day + 4) % 7

-- `time.Date(y, m, d, hour, min, 0, 0, loc)` for the date of `t`, `back` days before it
abbrev pub date_at : ℕ → ℕ → ℕ → ℕ → ℕ
date_at t back h m = (t / day - back) * day + h * hour + m * minute

-- `int(to - from)` for weekdays, and 7 more if that is negative
abbrev pub days_since : ℕ → ℕ → ℕ
days_since to from = if ltb to from then 7 + to - from else to - from
