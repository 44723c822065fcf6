-- ===== src/Prelude/Time.antt =====
-- The part of Go's `time` that the program computes with. A `time.Time` is the number of
-- nanoseconds since an origin two years before Go's zero time, so that every instant that RFC 3339
-- can name (years 0 to 9999, with an offset below 24 hours) is a natural number. A `time.Duration`
-- is an int64.
use Prim.Native.Nat.{ℕ, zero, suc, ◌+◌, ◌-◌, ◌*◌, ◌^◌, ◌≤◌, ◌<◌}
use mathlib.Core.Path.{◌≡◌, ◌∙◌, ap}
use native.Mathlib.Omega.{arith}
use mathlib.Core.Bool.{Bool}
use pglockr.Prelude.Tests.{ltb, nat_beq, if◌then◌else◌}
use pglockr.Prelude.Int.{ℤ, pos, negsuc, sub_ℕ, wrap64}

abbrev pub Time : Type 0
Time = ℕ

abbrev pub Duration : Type 0
Duration = ℤ

abbrev pub day : ℕ
day = 86400 * 1000000000

-- January 1, year 1, 00:00:00 UTC: 365 + 366 days after the origin.
abbrev pub zero_time : Time
zero_time = 731 * day

abbrev pub is_zero : Time → Bool
is_zero t = nat_beq t zero_time

abbrev pub max_duration : ℕ
max_duration = 2 ^ 63 - 1

-- `t.Sub(u)`: the difference, cut off at the ends of int64.
abbrev pub sub : Time → Time → Duration
sub t u =
    if ltb (2 ^ 63) (u - t)
    then negsuc max_duration
    else if ltb max_duration (t - u)
    then pos max_duration
    else sub_ℕ t u

-- Negation on int64: the least value is its own negative.
abbrev pub neg64 : Duration → Duration
neg64 (pos zero) = pos 0
neg64 (pos (suc n)) = negsuc n
neg64 (negsuc n) = if nat_beq n max_duration then negsuc max_duration else pos (suc n)

-- `t.Add(d)`
abbrev pub add : Time → Duration → Time
add t (pos n) = t + n
add t (negsuc n) = t - (n + 1)

-- January 1, 1970: 719162 days after Go's zero time.
abbrev pub unix_epoch : Time
unix_epoch = 719893 * day

-- `t.UnixNano()`: the nanoseconds since 1970, in an int64 that wraps around.
unfoldable pub unix_nano : Time → ℤ
unix_nano t = wrap64 (sub_ℕ t unix_epoch)

-- `time.Unix(0, n)`
abbrev pub unix : ℤ → Time
unix (pos n) = unix_epoch + n
unix (negsuc n) = unix_epoch - (n + 1)

-- The instants that `UnixNano` can represent: the years 1678 to 2261, and parts of the years
-- beside them.
abbrev pub IsUnix : Time → Type 0
IsUnix t = (unix_epoch ≤ t + 2 ^ 63) × (t < unix_epoch + 2 ^ 63)

pub unix_nano-IsUnix : (t : Time) → IsUnix t → unix_nano t ≡ sub_ℕ t unix_epoch
unfolding unix_nano
unix_nano-IsUnix t h = ground (arith, h)

pub unix-unix_nano : (t : Time) → IsUnix t → unix (unix_nano t) ≡ t
unix-unix_nano t h = ap unix (unix_nano-IsUnix t h) ∙ ground (arith, h)
