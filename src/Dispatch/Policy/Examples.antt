-- ===== src/Dispatch/Policy/Examples.antt =====
-- Runs of the backoff and the witnesses of its theorems.
use sms_gateway.Common.{ℕ, ◌+◌, ◌*◌, ◌/◌, ◌^◌, ◌≤◌, ◌≡◌, refl, inl, true, min, arith}
use sms_gateway.Message.{normal}
use sms_gateway.Dispatch.Policy.{Policy, backoff_cap, backoff}
use sms_gateway.Dispatch.Policy.Backoff.{backoff_bounds, backoff_cap_exact, backoff_cap_wraps}

-- Two seconds doubled up to five minutes.
abbrev retries : Policy
retries = record {
  policy_class = normal;
  max_attempts = 6;
  backoff_base = 2000000000;
  backoff_max = 300000000000;
  timeout = 5000000000;
  rotate = true;
}

-- A base of 2^33 + 1 nanoseconds, up to one minute.
abbrev slow : Policy
slow = record retries { backoff_base = 8589934593; backoff_max = 60000000000 }

abbrev half : ℕ → ℕ
half n = n / 2

backoff-third : backoff half retries 3 ≡ 6000000000
unfolding backoff backoff_cap
backoff-third = refl

backoff_bounds_example :
    (1 ≤ backoff_cap slow (31 + 1))
    × (backoff_cap slow (31 + 1) / 2 ≤ backoff half slow (31 + 1))
    × (backoff half slow (31 + 1) ≤ 60000000000)
backoff_bounds_example = backoff_bounds half slow 31 (λ n. omega arith) (omega arith)

backoff_cap_exact_example :
    (backoff_cap retries (4 + 1) ≡ min (2000000000 * 2 ^ 4) 300000000000)
    × (min (2000000000 * 2 ^ 4) 300000000000 / 2 ≤ backoff half retries (4 + 1))
    × (backoff half retries (4 + 1) ≤ min (2000000000 * 2 ^ 4) 300000000000)
backoff_cap_exact_example =
    backoff_cap_exact half retries 4 (λ n. omega arith) (omega arith) (omega arith)
      (inl (omega arith))

backoff_cap_wraps_example : backoff_cap slow 32 ≡ 1 * 2147483648
backoff_cap_wraps_example = backoff_cap_wraps slow 1 refl (omega arith) (omega arith) (omega arith)
