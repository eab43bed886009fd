-- ===== src/Time.antt =====
-- Instants and durations of package time, in nanoseconds. An instant counts from the earliest one
-- that a time.Time can hold, 2 ^ 63 - 1 seconds before the zero Time: adding a negative duration
-- stops there, as Time.Add does. The latest instant is left unbounded.
use grantseal.Prelude.{ℕ, suc, ◌+◌, ◌*◌, ◌-◌, ◌^◌, ltb, ◌==◌, Bool, ℤ, pos, negsuc, if◌then◌else◌}

abbrev pub Time : Type 0
Time = ℕ

abbrev pub second : ℕ
second = 1_000_000_000

abbrev pub day : ℕ
day = 24 * 3600 * second

-- The zero Time, January 1 of year 1.
unfoldable pub zero_time : Time
zero_time = (2 ^ 63 - 1) * second

unfoldable pub is_zero : Time → Bool
unfolding zero_time
is_zero t = t == zero_time

-- t.Add(d), and t.Add(-d), for a duration d that is not negative
abbrev pub add : Time → ℕ → Time
add t d = t + d

abbrev pub add_neg : Time → ℕ → Time
add_neg t d = t - d

-- t.After(u), t.Before(u)
abbrev pub after : Time → Time → Bool
after t u = ltb u t

abbrev pub before : Time → Time → Bool
before t u = ltb t u

-- A duration as the code has it: positive, or else the default.
abbrev pub positive_or : ℤ → ℕ → ℕ
positive_or (pos n) d = if n == 0 then d else n
positive_or (negsuc n) d = d

-- DefaultClockSkew of pkg/license/clock.go
abbrev pub default_clock_skew : ℕ
default_clock_skew = 300 * second

-- t.Add(d) for any duration.
unfoldable pub add_duration : Time → ℤ → Time
add_duration t (pos d) = t + d
add_duration t (negsuc d) = t - suc d
