-- ===== src/Examples/Processes.antt =====
-- The caches and goroutines of the processes, and the witnesses of their theorems.
use sms_gateway.Common.{
  ℕ, ◌+◌, ◌-◌, ◌≡◌, refl, Bool, true, false, none, some, List, [], length, ◌<◌, ◌∷◌, ◌++◌, leb,
  ◌==◌, if◌then◌else◌, arith, All,
}
use sms_gateway.Common.Text.{Text, codes, text_eq}
use sms_gateway.Message.{delivered}
use sms_gateway.Batching.{Event, received, timer_fired, values, concat, Sized}
use sms_gateway.Auth.{Identity, authenticate}
use sms_gateway.Auth.Fresh.{KeyCheck, after_checks, Justified, authenticate_fresh}
use sms_gateway.RateLimit.{Buckets, Limiter, find_bucket, sweep_idle, allow}
use sms_gateway.RateLimit.Laws.{unless_idle, own_decision, own_bucket, allow_isolated}
use sms_gateway.Dispatch.Job.{Outcome}
use sms_gateway.Dispatch.Completer.Flush.{
  Fate, answered, connection_failed, answer_lost, Counters, Weather, Once, flush, flush-Once,
}
use sms_gateway.Dispatch.Completer.Run.{quit, queued_at, left_unflushed, run_batches_all}
use sms_gateway.Dispatch.Completer.Run as Run
use sms_gateway.Dlr.Batcher.{Pending, commit_all, commit_all_answers, to, tickets}
use sms_gateway.Dlr.Batcher as Batcher
use sms_gateway.Config.{Env, required, value, int, duration}
use sms_gateway.Config.Gateway.{
  load_gateway, read_api, read_dispatch, read_class, parse_providers, entries, split_from, cut,
  valid_name, all_name_chars, validate_gateway,
}
use sms_gateway.Config.Laws.{Sound, load_gateway-Sound}
use sms_gateway.Examples.Rows.{tables, worker, ends_rejected, of_id}

-- A key of 43 letters, and a hash that keeps it.
abbrev key : Text
key = codes "sk_abcdefghijklmnopqrstuvwxyzabcdefghijklmnopqrst"

abbrev same : Text → Text
same s = s

abbrev acme : Identity
acme = record { id = 1; name = codes "Acme"; rate_limit_rps = 5 }

abbrev early_check : KeyCheck
early_check = record { now = 100; lookup = λ h. some acme; key = key }

-- The customer is gone, the cache still has it.
abbrev late_check : KeyCheck
late_check = record { now = 120; lookup = λ h. none; key = key }

authenticate_fresh_example :
    Justified same 30 late_check
      (early_check ∷ [])
      (authenticate same late_check.lookup 120 key (after_checks same 30 (early_check ∷ []))).0
authenticate_fresh_example = authenticate_fresh same 30 late_check (early_check ∷ [])

-- Buckets that never refill.
abbrev counting : Buckets ℕ
counting = record {
  new_limiter = λ rps instances burst. burst;
  set_limit_at = λ now rps instances burst tokens. tokens;
  allow_n = λ now n tokens. if leb n tokens then (true, tokens - n) else (false, tokens);
  reserve_n = λ now n tokens. (none, tokens);
  tokens_at = λ now tokens. tokens;
}

abbrev two_buckets : Limiter ℕ
two_buckets = record {
  instances = 1;
  buckets =
      (1, record { limiter = 500; rps = 5; last_used = 3 })
      ∷ (2, record { limiter = 7; rps = 5; last_used = 4 })
      ∷ [];
  last_sweep = 0;
}

allow_isolated_example :
    ((j : ℕ)
      → (1 == j) ≡ false
      → find_bucket j (allow counting 1 5 20 9 two_buckets).1.buckets
        ≡ unless_idle 9 two_buckets (find_bucket j two_buckets.buckets))
    × ((allow counting 1 5 20 9 two_buckets).0
        ≡ own_decision counting
            (sweep_idle 9 two_buckets).instances
            5
            20
            9
            (unless_idle 9 two_buckets (find_bucket 1 two_buckets.buckets)))
    × (find_bucket 1 (allow counting 1 5 20 9 two_buckets).1.buckets
        ≡ some (
            own_bucket counting
              (sweep_idle 9 two_buckets).instances
              5
              20
              9
              (unless_idle 9 two_buckets (find_bucket 1 two_buckets.buckets))))
allow_isolated_example =
    allow_isolated counting 1 5 20 9 two_buckets (unfold find_bucket in (refl, (refl, tt)))

abbrev no_counts : Counters
no_counts = record { sent = 0; retried = 0; deferred = 0; failed = 0; expired = 0 }

-- The first connection fails, and the answer to the second attempt is lost.
abbrev fates : ℕ → Fate
fates n = if n == 1 then connection_failed else if n == 2 then answer_lost else answered

abbrev weather : Weather
weather = record { fate = fates; cut_off = λ n. false; now = λ n. 60 + n; new_id = λ n. of_id }

flush-Once_example :
    Once weather 1000000 worker
      (ends_rejected ∷ [])
      no_counts
      tables
      (flush weather 1000000 worker (ends_rejected ∷ []) no_counts tables)
flush-Once_example = flush-Once weather 1000000 worker (ends_rejected ∷ []) no_counts tables

abbrev three_events : List (Event Outcome)
three_events = received ends_rejected ∷ timer_fired ∷ received ends_rejected ∷ []

run_batches_all_example :
    (concat (Run.run_batches 2 three_events (quit (ends_rejected ∷ [])))
        ++ left_unflushed 2 three_events (quit (ends_rejected ∷ []))
      ≡ values three_events ++ queued_at (quit (ends_rejected ∷ [])))
    × All (Sized 2) (Run.run_batches 2 three_events (quit (ends_rejected ∷ [])))
    × (length (left_unflushed 2 three_events (quit (ends_rejected ∷ []))) < 2)
run_batches_all_example = run_batches_all 2 three_events (quit (ends_rejected ∷ [])) (omega arith)

abbrev pending : ℕ → Pending
pending n = record {
  ticket = n;
  report = record {
    message_id = n;
    status = delivered;
    provider = codes "A";
    provider_ref = codes "r";
  };
}

commit_all_answers_example :
    to
      (commit_all
        (λ n. 60 + n)
        (λ n. n == 0)
        0
        (Batcher.run_batches 2
          (received (pending 5) ∷ timer_fired ∷ received (pending 6) ∷ [])
          (pending 7 ∷ []))
        tables).0
    ≡ tickets
        (values (received (pending 5) ∷ timer_fired ∷ received (pending 6) ∷ []) ++ pending 7 ∷ [])
commit_all_answers_example =
    commit_all_answers 2 (received (pending 5) ∷ timer_fired ∷ received (pending 6) ∷ [])
      (pending 7 ∷ []) (λ n. 60 + n) (λ n. n == 0) tables

-- Only the required list of providers is set, to two of them.
abbrev env : Env
env = record {
  lookup = λ k. if text_eq k (codes "PROVIDERS") then some (codes "A=u,B=v") else none;
  trim = λ s. s;
  atoi = λ s. none;
  parse_duration = λ s. none;
}

abbrev any_url : Text → Bool
any_url s = true

loaded : (load_gateway env any_url same).problems ≡ []
unfolding load_gateway read_api read_dispatch read_class parse_providers entries split_from cut
    valid_name all_name_chars validate_gateway required value int duration
loaded = refl

load_gateway-Sound_example : Sound (load_gateway env any_url same).got
load_gateway-Sound_example = load_gateway-Sound env any_url same loaded
