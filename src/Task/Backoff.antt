-- ===== src/Task/Backoff.antt =====
-- How long a target is left alone, and when it is polled again.
use native.Mathlib.Nat.{pow-suc}
use metalwatch.Base.{
  ℕ, zero, suc, ◌+◌, ◌-◌, ◌*◌, ◌^◌, ◌≤◌, ◌<◌, min, ◌≡◌, refl, ap, arith, ltb, Bool-cases, inl, inr,
}
use metalwatch.Base.Int.{pos, pos_part, ◌≤ℤ◌, ◌+ℤ◌, wrap64}
use metalwatch.Task.{Options, new_pool, double_delay, backoff_delay}

-- The options of a new pool are all at least 1, whatever was asked for.
pub new_pool-opt_positive :
    (opt : Options)
    → let o = (new_pool opt).opt in
      (pos 1 ≤ℤ o.concurrency)
      × (pos 1 ≤ℤ o.timeout)
      × (pos 1 ≤ℤ o.retry_threshold)
      × (pos 1 ≤ℤ o.backoff_base)
      × (pos 1 ≤ℤ o.backoff_max)
unfolding new_pool
new_pool-opt_positive opt = ground arith

double_lem : (b : ℕ) → b < 2 ^ 62 → wrap64 (pos b +ℤ pos b) ≡ pos (b + b)
unfolding wrap64 ◌+ℤ◌
double_lem b h = ground arith

le-mul_pow : (b k : ℕ) → b ≤ b * 2 ^ k
le-mul_pow b zero = omega arith
le-mul_pow b (suc k) = omega (arith, le-mul_pow b k, ap (λ (t : ℕ). b * t) (pow-suc 2 k))

twice-mul_pow : (b k : ℕ) → (b + b) * 2 ^ k ≡ b * 2 ^ suc k
twice-mul_pow b k = omega (arith, ap (λ (t : ℕ). b * t) (pow-suc 2 k))

double_delay-pow :
    (k b m : ℕ)
    → 0 < b
    → m ≤ 2 ^ 62
    → (d : ℕ) × (double_delay k (pos b) (pos m) ≡ pos d) × (min d m ≡ min (b * 2 ^ k) m)
unfolding double_delay
double_delay-pow zero b m pb hm = (b, refl, omega arith)
double_delay-pow (suc k) b m pb hm = elim (Bool-cases (ltb b m)) [
  | inl more ↦
      let (d, e, h) = double_delay-pow k (b + b) m (omega arith) hm in
      (d, ground (arith, double_lem b, e), omega (arith, h, twice-mul_pow b k))
  | inr done ↦ (b, ground arith, ground (arith, le-mul_pow b (suc k)))
]

-- With a positive base and a maximum of at most 2^62 ns the delay after the n-th failure in a row
-- is the smaller of base * 2^(n - threshold) and the maximum.
pub backoff_delay-pow :
    (opt : Options) (n b m : ℕ)
    → opt.backoff_base ≡ pos b
    → opt.backoff_max ≡ pos m
    → 0 < b
    → m ≤ 2 ^ 62
    → backoff_delay opt n ≡ pos (min (b * 2 ^ (n - pos_part opt.retry_threshold)) m)
unfolding backoff_delay
backoff_delay-pow opt n b m eb em pb hm =
    let (d, e, h) = double_delay-pow (n - pos_part opt.retry_threshold) b m pb hm in
    rw (eb, em, e) (ground (arith, h))
