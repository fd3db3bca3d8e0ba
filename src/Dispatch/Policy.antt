-- ===== src/Dispatch/Policy.antt =====
-- internal/dispatch/policy.go: the dispatch settings of one service class, and the retry backoff.
-- A duration is an int64 of nanoseconds; configured durations are positive.
pub mod Backoff
pub mod Examples
use sms_gateway.Common.{ℕ, ◌+◌, ◌-◌, ◌*◌, ◌/◌, ◌%◌, ◌^◌, Bool, ◌&&◌, ◌||◌, leb, ltb, if◌then◌else◌}
use sms_gateway.Message.{MessageType}

pub record Policy : Type 0 where
  pub policy_class : MessageType
  pub max_attempts : ℕ
  pub backoff_base : ℕ
  pub backoff_max : ℕ
  pub timeout : ℕ
  pub rotate : Bool

-- `x << k` on an int64, as a bit pattern, and what 0 < x and x < y say of such a pattern and a
-- duration y that is not negative.
abbrev pub shl64 : ℕ → ℕ → ℕ
shl64 x k = (x * 2 ^ k) % 18446744073709551616

abbrev pub positive64 : ℕ → Bool
positive64 x = ltb 0 x && ltb x 9223372036854775808

abbrev pub less64 : ℕ → ℕ → Bool
less64 x y = leb 9223372036854775808 x || ltb x y

-- The value of `d` before jitter, for an attempt of at least 1: callers pass the number of attempts made,
-- plus 1, and the shift by -1 that an attempt 0 would make panics in Go.
unfoldable pub backoff_cap : Policy → ℕ → ℕ
backoff_cap p attempt =
    let exp = shl64 p.backoff_base (attempt - 1) in
    if ltb (attempt - 1) 32
    then (if positive64 exp && less64 exp p.backoff_max then exp else p.backoff_max)
    else p.backoff_max

-- `jitter n` is `time.Duration(random() * float64(n))`, the one computation on floats.
unfoldable pub backoff : (ℕ → ℕ) → Policy → ℕ → ℕ
unfolding backoff_cap
backoff jitter p attempt = let d = backoff_cap p attempt in d / 2 + jitter (d / 2)
