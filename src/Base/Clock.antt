-- ===== src/Base/Clock.antt =====
-- time.Time and time.Duration. A reading is the nanoseconds since Go's zero time (year 1), so the
-- zero `time.Time` is 0; a duration is an int64 of nanoseconds.
use Prim.Native.Nat.{ℕ, ◌+◌, ◌-◌, ◌*◌, ◌≤◌, min}
use mathlib.Core.Path.{◌≡◌}
use mathlib.Core.Bool.{Bool}
use native.Mathlib.Omega.{arith}
use metalwatch.Base.Tests.{ltb, leb, ◌==◌, if◌then◌else◌}
use metalwatch.Base.Int.{ℤ, pos, negsuc, pos_part, neg_part, ltb_ℤ, max_int64}

abbrev pub Time : Type 0
Time = ℕ

abbrev pub Duration : Type 0
Duration = ℤ

abbrev pub second : ℕ
second = 1_000_000_000

abbrev pub minute : ℕ
minute = 60 * second

-- `t.IsZero()`
abbrev pub is_zero : Time → Bool
is_zero t = t == 0

-- `t.Sub(u)`, which saturates at the ends of int64.
unfoldable pub since : Time → Time → Duration
since t u = if leb u t then pos (min (t - u) max_int64) else negsuc (min (u - t - 1) max_int64)

-- `t.Add(d)`; a sum before the zero time stops there.
unfoldable pub add : Time → Duration → Time
add t d = t + pos_part d - neg_part d

-- A duration that int64 holds is compared exactly, also where `Sub` saturates.
pub ltb-since : (t u d : ℕ) → d ≤ max_int64 → ltb_ℤ (since t u) (pos d) ≡ ltb t (u + d)
unfolding since
ltb-since t u d h = ground arith

since-nonneg : (t u : ℕ) → u ≤ t → neg_part (since t u) ≡ 0
unfolding since
since-nonneg t u h = ground arith
