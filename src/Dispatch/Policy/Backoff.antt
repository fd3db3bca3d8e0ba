-- ===== src/Dispatch/Policy/Backoff.antt =====
-- Bounds of the retry delay, and where the doubling is exact.
use native.Mathlib.Decide.{dec_lt}
use native.Mathlib.Nat.{pow-le-pow_right, one-le-pow, mul-le-mul, mul-le-mul_left}
use sms_gateway.Common.{
  ℕ, ◌+◌, ◌-◌, ◌*◌, ◌/◌, ◌%◌, ◌^◌, ◌≤◌, ◌<◌, ◌≡◌, refl, ◌∙◌, ◌⊎◌, inl, inr, min, arith,
}
use sms_gateway.Dispatch.Policy.{Policy, backoff_cap, backoff}

backoff_cap-within :
    (p : Policy) (k : ℕ)
    → 1 ≤ p.backoff_max
    → (1 ≤ backoff_cap p (k + 1)) × (backoff_cap p (k + 1) ≤ p.backoff_max)
unfolding backoff_cap
backoff_cap-within p k lo = ground arith

-- For a maximum above zero, any base and any attempt from 1 on, also where the doubling
-- overflows: the delay before jitter is positive, neither zero nor a negative number, and the delay is at
-- least half of it and at most the maximum; provided the jitter adds at most the half that it is given.
pub backoff_bounds :
    (jitter : ℕ → ℕ) (p : Policy) (k : ℕ)
    → ((n : ℕ) → jitter n ≤ n)
    → 1 ≤ p.backoff_max
    → (1 ≤ backoff_cap p (k + 1))
      × (backoff_cap p (k + 1) / 2 ≤ backoff jitter p (k + 1))
      × (backoff jitter p (k + 1) ≤ p.backoff_max)
unfolding backoff
backoff_bounds jitter p k h lo =
    let j = h (backoff_cap p (k + 1) / 2) in
    let c = backoff_cap-within p k lo in (c.0, omega arith, omega (arith, c.1))

cap_small :
    (p : Policy) (k x : ℕ)
    → k < 32
    → p.backoff_base * 2 ^ k ≡ x
    → 1 ≤ x
    → x < 9223372036854775808
    → backoff_cap p (k + 1) ≡ min x p.backoff_max
unfolding backoff_cap
cap_small p k x low e one fits =
    let back : k + 1 - 1 ≡ k = omega arith in
    let whole : x % 18446744073709551616 ≡ x = omega arith in rw (back, e, whole) (ground arith)

cap_late : (p : Policy) (k : ℕ) → 32 ≤ k → backoff_cap p (k + 1) ≡ p.backoff_max
unfolding backoff_cap
cap_late p k late = ground arith

doubled_early :
    (p : Policy) (k : ℕ)
    → 1 ≤ p.backoff_base
    → p.backoff_base < 4294967296
    → k < 32
    → backoff_cap p (k + 1) ≡ min (p.backoff_base * 2 ^ k) p.backoff_max
doubled_early p k one small low =
    let bound : 2 ^ k ≤ 2 ^ 31 =
      pow-le-pow_right {n = 2} (omega arith) {i = k} {j = 31} (omega arith) in
    let least : 1 ≤ 2 ^ k = one-le-pow k 2 (omega arith) in
    let below : p.backoff_base * 2 ^ k ≤ 4294967295 * 2 ^ 31 =
      mul-le-mul {n₂ = 4294967295} (omega arith) bound in
    let above : 1 * 1 ≤ p.backoff_base * 2 ^ k = mul-le-mul one least in
    cap_small p k (p.backoff_base * 2 ^ k) low refl (omega arith) (omega arith)

doubled :
    (p : Policy) (k : ℕ)
    → 1 ≤ p.backoff_base
    → p.backoff_base < 4294967296
    → (k < 32) ⊎ (p.backoff_max ≤ p.backoff_base * 4294967296)
    → backoff_cap p (k + 1) ≡ min (p.backoff_base * 2 ^ k) p.backoff_max
doubled p k one small (inl low) = doubled_early p k one small low
doubled p k one small (inr capped) = elim (dec_lt k 32) [
  | yes low ↦ doubled_early p k one small low
  | no late ↦
      let bound : 2 ^ 32 ≤ 2 ^ k =
        pow-le-pow_right {n = 2} (omega arith) {i = 32} {j = k} (omega arith) in
      let large : p.backoff_base * 2 ^ 32 ≤ p.backoff_base * 2 ^ k =
        mul-le-mul_left p.backoff_base bound in
      cap_late p k (omega arith) ∙ omega arith
]

-- While 2^31 times the base fits an int64, the delay is between half and all of the base doubled once for
-- each attempt after the first, or of the maximum if that is less, provided the jitter adds at most the
-- half that it is given. From attempt 33 on this wants the maximum to be at most 2^32 times the base.
pub backoff_cap_exact :
    (jitter : ℕ → ℕ) (p : Policy) (k : ℕ)
    → ((n : ℕ) → jitter n ≤ n)
    → 1 ≤ p.backoff_base
    → p.backoff_base < 4294967296
    → (k < 32) ⊎ (p.backoff_max ≤ p.backoff_base * 4294967296)
    → (backoff_cap p (k + 1) ≡ min (p.backoff_base * 2 ^ k) p.backoff_max)
      × (min (p.backoff_base * 2 ^ k) p.backoff_max / 2 ≤ backoff jitter p (k + 1))
      × (backoff jitter p (k + 1) ≤ min (p.backoff_base * 2 ^ k) p.backoff_max)
unfolding backoff
backoff_cap_exact jitter p k h one small capped =
    let e = doubled p k one small capped in
    let j = h (min (p.backoff_base * 2 ^ k) p.backoff_max / 2) in
    (e, rw e (omega arith), rw e (omega (arith, j)))

-- The test for a positive result misses an overflow past 2^64: for a base of 2^33 + b nanoseconds
-- the shift by 31 leaves b * 2^31, and the attempt numbered 32 waits by that value instead of the
-- maximum.
pub backoff_cap_wraps :
    (p : Policy) (b : ℕ)
    → p.backoff_base ≡ 8589934592 + b
    → 1 ≤ b
    → b < 4294967296
    → b * 2147483648 < p.backoff_max
    → backoff_cap p 32 ≡ b * 2147483648
unfolding backoff_cap
backoff_cap_wraps p b e lo hi below = ground arith
