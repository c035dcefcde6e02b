-- ===== src/Prelude/Clock.antt =====
-- Go's `time`. A `time.Time` is the number of nanoseconds since the zero `time.Time` (so `IsZero` is
-- the test for 0, and `Truncate` rounds down to a multiple); a `time.Duration` is a number of
-- nanoseconds, signed where the program lets it be negative.
use one_auth_watch.Prelude.{ℕ, ◌+◌, ◌*◌, ◌/◌, Bool, ltb}

abbrev pub Time : Type 0
Time = ℕ

abbrev pub Duration : Type 0
Duration = ℕ

abbrev pub second : Duration
second = 1000000000

abbrev pub minute : Duration
minute = 60 * second

abbrev pub hour : Duration
hour = 60 * minute

-- `a.After(b)`
abbrev pub after : Time → Time → Bool
after a b = ltb b a

-- `now.Sub(last) > d`
abbrev pub elapsed_over : Time → Time → Duration → Bool
elapsed_over now last d = ltb (last + d) now

-- `t.Truncate(d)`
abbrev pub truncate : Time → Duration → Time
truncate t d = t / d * d
