-- ===== src/Stream/Backoff.antt =====
-- The wait before a reconnect, agent/internal/grpcstream/backoff.go, and the count of failed sessions
-- in `Run` of agent/internal/grpcstream/session.go.
use metalwatch.Base.{
  ℕ, zero, suc, ◌+◌, ◌-◌, ◌*◌, ◌/◌, ◌^◌, ◌≤◌, min, ◌≡◌, Bool, List, [], ◌∷◌, arith, ltb,
  if◌then◌else◌,
}
use metalwatch.Base.Int.{ℤ, pos, negsuc, ltb_ℤ, ◌+ℤ◌, ◌-ℤ◌, ◌≤ℤ◌}
use metalwatch.Base.Clock.{second}
use native.Mathlib.Nat.{pow-suc}

abbrev pub max_backoff : ℕ
max_backoff = 60 * second

abbrev floor_zero : ℤ → ℕ
floor_zero (pos n) = n
floor_zero (negsuc n) = 0

-- The wait without its jitter. The shift is at most 6, so it does not overflow.
unfoldable pub base_delay : ℤ → ℕ
base_delay attempt =
    let d = second * 2 ^ min (floor_zero attempt) 6 in if ltb max_backoff d then max_backoff else d

-- `draw` is what rand.Int64N(d + 1) returns: a number from 0 to d.
unfoldable pub backoff : ℤ → ℕ → ℤ
backoff attempt draw =
    let d = base_delay attempt in
    let out = pos d +ℤ (pos draw -ℤ pos (d / 4)) in
    if ltb_ℤ out (pos 100_000_000) then pos 100_000_000 else out

-- The attempts that `Run` counts over sessions, of which true is a healthy one.
unfoldable pub attempts : ℕ → List Bool → ℕ
attempts n [] = n
attempts n (healthy ∷ later) = attempts (if healthy then 0 else suc n) later

pow_pos : (n : ℕ) → 1 ≤ 2 ^ n
pow_pos zero = omega arith
pow_pos (suc n) = omega (arith, pow_pos n, pow-suc 2 n)

-- Up to the sixth attempt the wait doubles from one second; it never passes a minute.
pub base_delay_lem : (n : ℕ) → base_delay (pos n) ≡ min (second * 2 ^ min n 6) max_backoff
unfolding base_delay
base_delay_lem n = ground arith

base_delay_bounds : (n : ℕ) → (second ≤ base_delay (pos n)) × (base_delay (pos n) ≤ max_backoff)
base_delay_bounds n =
    let grows : 1 ≤ 2 ^ min n 6 = pow_pos (min n 6) in
    (omega (arith, base_delay_lem n, grows), omega (arith, base_delay_lem n))

-- For a draw from 0 to d the wait before attempt n is d + draw - d / 4, between d - d / 4 and 2 *
-- d - d / 4, where d is the smaller of one second times 2^min(n, 6) and one minute.
pub backoff_bounds :
    (n draw : ℕ)
    → draw ≤ base_delay (pos n)
    → let d = base_delay (pos n) in
      (d ≡ min (second * 2 ^ min n 6) max_backoff)
      × (backoff (pos n) draw ≡ pos (d + draw - d / 4))
      × (pos (d - d / 4) ≤ℤ backoff (pos n) draw)
      × (backoff (pos n) draw ≤ℤ pos (2 * d - d / 4))
unfolding backoff ◌+ℤ◌ ◌-ℤ◌
backoff_bounds n draw h = ground (arith, base_delay_lem n, base_delay_bounds n)
