-- ===== src/RateLimit.antt =====
-- internal/ratelimit/limiter.go: one token bucket per customer. The buckets are rate.Limiter values of
-- golang.org/x/time: the record `Buckets` has the calls that the code makes of them. A rate is the fraction
-- rps / instances. Times are in nanoseconds; the zero time of lastSweep is 0.
pub mod Laws
use sms_gateway.Common.{
  ℕ, ◌+◌, ◌-◌, ◌*◌, ◌/◌, max, Bool, true, false, ◌&&◌, not, Option, none, some, List, [], ◌∷◌, keep,
  ltb, leb, ◌==◌, if◌then◌else◌,
}
use sms_gateway.Accept.Validate.{max_batch_size}

abbrev pub min_burst : ℕ
min_burst = max_batch_size

-- Ten minutes.
abbrev pub idle_after : ℕ
idle_after = 600000000000

pub record Decision : Type 0 where
  pub allowed : Bool
  pub limit : ℕ
  pub remaining : ℕ
  -- `none` for math.MaxInt64: the request can never be admitted
  pub retry_after : Option ℕ

-- rate.NewLimiter, SetLimitAt with SetBurstAt, AllowN, ReserveN with DelayFrom and CancelAt, TokensAt.
pub record Buckets (L : Type 0) : Type 0 where
  pub new_limiter : ℕ → ℕ → ℕ → L
  pub set_limit_at : ℕ → ℕ → ℕ → ℕ → L → L
  pub allow_n : ℕ → ℕ → L → Bool × L
  pub reserve_n : ℕ → ℕ → L → Option ℕ × L
  pub tokens_at : ℕ → L → ℕ

-- `Burst`: math.Ceil(2 * rps / instances), at least MinBurst.
unfoldable pub burst_of : ℕ → ℕ → ℕ
burst_of instances rps = max ((2 * rps + instances - 1) / instances) min_burst

pub record Bucket (L : Type 0) : Type 0 where
  pub limiter : L
  pub rps : ℕ
  pub last_used : ℕ

pub record Limiter (L : Type 0) : Type 0 where
  pub instances : ℕ
  pub buckets : List (ℕ × Bucket L)
  pub last_sweep : ℕ

module _ {L : Type 0} where
  -- `New`
  unfoldable pub new : ℕ → Limiter L
  new instances = record { instances = max instances 1; buckets = []; last_sweep = 0 }

  unfoldable pub find_bucket : ℕ → List (ℕ × Bucket L) → Option (Bucket L)
  find_bucket k [] = none
  find_bucket k ((i, b) ∷ bs) = if i == k then some b else find_bucket k bs

  unfoldable pub put_bucket : ℕ → Bucket L → List (ℕ × Bucket L) → List (ℕ × Bucket L)
  put_bucket k b bs = (k, b) ∷ keep (λ p. not (p.0 == k)) bs

  -- `sweepLocked`
  unfoldable pub sweep_idle : ℕ → Limiter L → Limiter L
  sweep_idle now l = if ltb (now - l.last_sweep) idle_after then l else record l {
    buckets = keep (λ p. not (ltb idle_after (now - p.1.last_used))) l.buckets;
    last_sweep = now;
  }

  module _ (lib : Buckets L) where
    -- `bucketLocked`, on what the map holds.
    unfoldable pub bucket_for : ℕ → ℕ → ℕ → Option (Bucket L) → Bucket L
    bucket_for instances rps now none = record {
      limiter = lib.new_limiter rps instances (burst_of instances rps);
      rps = rps;
      last_used = 0;
    }
    bucket_for instances rps now (some b) = if b.rps == rps then b else record b {
      limiter = lib.set_limit_at now rps instances (burst_of instances rps) b.limiter;
      rps = rps;
    }

    -- What `Allow` does with the bucket's limiter.
    unfoldable pub take_tokens : ℕ → ℕ → L → Bool × Option ℕ × L
    take_tokens now n b =
        let (ok, b₁) = lib.allow_n now n b in
        let (delay, b₂) = lib.reserve_n now n b₁ in
        if ok then (true, some 0, b₁) else (false, delay, b₂)

    -- `Allow`
    unfoldable pub allow : ℕ → ℕ → ℕ → ℕ → Limiter L → Decision × Limiter L
    unfolding find_bucket put_bucket sweep_idle bucket_for take_tokens
    allow customer rps n now l =
        let l₁ = sweep_idle now l in
        let b = bucket_for l₁.instances rps now (find_bucket customer l₁.buckets) in
        let (ok, delay, lim) = take_tokens now n b.limiter in
        (
          record {
            allowed = ok;
            limit = rps;
            remaining = lib.tokens_at now lim;
            retry_after = delay;
          },
          record l₁ {
            buckets = put_bucket customer (record b { limiter = lim; last_used = now }) l₁.buckets;
          },
        )
