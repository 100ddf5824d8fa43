-- ===== src/Base/Time.antt =====
-- Go's `time.Time` as the number of nanoseconds since the start of year 1 UTC, so that the zero time
-- is 0; earlier times are left out, and so is the location, which `UTC` drops. A `time.Duration` is
-- an integer number of nanoseconds.
use Prim.Native.Nat.{ℕ, ◌+◌, ◌-◌, ◌*◌, ◌/◌, ◌%◌}
use mathlib.Core.Bool.{Bool}
use edge_guard.Base.Tests.{ltb, ◌==◌}
use edge_guard.Base.Int.{ℤ, pos, negsuc, sub_ℕ, ◌*ℤ◌}

abbrev pub Time : Type 0
Time = ℕ

abbrev pub millisecond : ℕ
millisecond = 1_000_000

abbrev pub microsecond : ℕ
microsecond = 1_000

abbrev pub second : ℕ
second = 1_000_000_000

abbrev pub hour : ℕ
hour = 3_600_000_000_000

-- `t.IsZero()`
abbrev pub is_zero : Time → Bool
is_zero t = t == 0

-- `a.Before(b)` and `a.After(b)`
abbrev pub before : Time → Time → Bool
before a b = ltb a b

abbrev pub after : Time → Time → Bool
after a b = ltb b a

-- `t.Add(d)`; a sum before year 1 is cut off
unfoldable pub add : Time → ℤ → Time
add t (pos d) = t + d
add t (negsuc d) = t - (d + 1)

-- seconds from year 1 to 1970
abbrev pub unix_epoch : ℕ
unix_epoch = 62135596800

-- `t.Unix()` and `t.UnixMilli()`
unfoldable pub unix : Time → ℤ
unix t = sub_ℕ (t / second) unix_epoch

unfoldable pub unix_milli : Time → ℤ
unix_milli t = sub_ℕ (t / millisecond) (unix_epoch * 1000)

-- `time.UnixMilli(ms)`
unfoldable pub of_unix_milli : ℤ → Time
unfolding add ◌*ℤ◌
of_unix_milli ms = add (unix_epoch * second) (ms *ℤ millisecond)

-- `a.Sub(b)`
unfoldable pub sub : Time → Time → ℤ
sub a b = sub_ℕ a b

-- `t.Truncate(d)` for a positive `d`: a whole number of `d` since the zero time
unfoldable pub truncate : Time → ℕ → Time
truncate t d = t - t % d
