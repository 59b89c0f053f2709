-- ===== src/Prelude/Time.antt =====
-- Go's time.Time and time.Duration as integers: nanoseconds since the zero time (1 January of year
-- 1, UTC) and nanoseconds. A time outside Go's range is not excluded; a Duration is an int64.
use Prim.Native.Nat.{ℕ, ◌*◌}
use mathlib.Core.Bool.{Bool}
use mini_eureka.Prelude.Tests.{if◌then◌else◌}
use mini_eureka.Prelude.Int.{ℤ, pos, negsuc, ◌+ℤ◌, ◌-ℤ◌, ltb_ℤ, eqb_ℤ, max_int64, min_int64, quot_ℤ}
use Prim.Native.Nat.{◌/◌}

abbrev pub Time : Type 0
Time = ℤ

abbrev pub Duration : Type 0
Duration = ℤ

abbrev pub zero_time : Time
zero_time = pos 0

abbrev pub is_zero_time : Time → Bool
is_zero_time t = eqb_ℤ t zero_time

-- `t.Add(d)`
abbrev pub add_time : Time → Duration → Time
add_time t d = t +ℤ d

-- `t.After(u)`
abbrev pub after : Time → Time → Bool
after t u = ltb_ℤ u t

-- `t.Sub(u)`, which stops at the least and the greatest Duration.
unfoldable pub sub_time : Time → Time → Duration
sub_time t u =
    let d = t -ℤ u in
    if ltb_ℤ d min_int64 then min_int64 else if ltb_ℤ max_int64 d then max_int64 else d

abbrev pub millisecond : ℕ
millisecond = 1000000

abbrev pub second : ℕ
second = 1000000000

-- `d.Milliseconds()`, which truncates towards zero.
unfoldable pub milliseconds : Duration → ℤ
unfolding quot_ℤ
milliseconds d = quot_ℤ d millisecond

-- Seconds from the zero time to the Unix epoch.
abbrev pub unix_epoch_seconds : ℕ
unix_epoch_seconds = 62135596800

-- The greatest multiple of `d` that does not exceed a number of nanoseconds, divided by `d`.
unfoldable pub floor_div : ℤ → ℕ → ℤ
floor_div (pos n) d = pos (n / d)
floor_div (negsuc n) d = negsuc (n / d)

-- `t.UnixMilli()`
unfoldable pub unix_milli : Time → ℤ
unfolding floor_div
unix_milli t = floor_div t millisecond -ℤ pos (unix_epoch_seconds * 1000)
