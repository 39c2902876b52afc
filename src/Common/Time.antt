-- ===== src/Common/Time.antt =====
-- Go's `time.Time` and `time.Duration`. An instant is the number of nanoseconds since the zero
-- time, so 0 is `time.Time{}`. A duration that the program adds to a time is never negative; a
-- difference that may be (`now.Sub(at)`) is only ever compared, and is written as such a test.
use subsyncd.Common.{ℕ, ◌+◌, Bool, ltb, leb, ◌==◌}

abbrev pub Instant : Type 0
Instant = ℕ

abbrev pub Duration : Type 0
Duration = ℕ

-- `t.IsZero()`
abbrev pub is_zero : Instant → Bool
is_zero t = t == 0

-- `t.After(u)` and `t.Before(u)`
abbrev pub after : Instant → Instant → Bool
after t u = ltb u t

abbrev pub before : Instant → Instant → Bool
before t u = ltb t u

-- `now.Sub(at) < d`: over the integers, and also where Go's difference saturates, since no
-- duration lies beyond the value at which it does.
abbrev pub sub_lt : Instant → Instant → Duration → Bool
sub_lt now at d = ltb now (at + d)

-- `now.Sub(at) >= d`
abbrev pub sub_ge : Instant → Instant → Duration → Bool
sub_ge now at d = leb (at + d) now

abbrev pub second : Duration
second = 1_000_000_000

abbrev pub minute : Duration
minute = 60_000_000_000

abbrev pub hour : Duration
hour = 3_600_000_000_000
