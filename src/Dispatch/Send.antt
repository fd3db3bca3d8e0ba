-- ===== src/Dispatch/Send.antt =====
-- internal/dispatch/send.go and classify.go: dispatching one job. What the provider and the clocks do is
-- an `Attempt`; `ps` are the providers in priority order, of which the configuration has at least one.
pub mod Outcomes
pub mod Providers
mod Examples
use sms_gateway.Common.{
  ℕ, zero, suc, ◌+◌, ◌*◌, ◌/◌, ◌%◌, Bool, true, false, ◌&&◌, ◌||◌, not, Option, none, some, List,
  [], ◌∷◌, ◌++◌, ltb, leb, ◌==◌, length, if◌then◌else◌,
}
use sms_gateway.Common.Text.{Text, codes}
use sms_gateway.Message.{FailureReason, rejected, attempts_exhausted, ttl_expired}
use sms_gateway.Dispatch.Job.{
  Job, OutcomeKind, outcome_sent, outcome_retry, outcome_deferred, outcome_failed, outcome_expired,
  Outcome,
}
use sms_gateway.Dispatch.Policy.{Policy, backoff}
use sms_gateway.Dispatch.Circuit.{Breaker, allow, usable, next_probe, record_result, state_of}

-- `text` is the error's message.
pub record SendError : Type 0 where
  pub status : ℕ
  pub permanent : Bool
  pub provider_fault : Bool
  pub text : Text

-- `http_error` is the message of a response that is not 200.
unfoldable pub classify_status : (ℕ → Text) → ℕ → SendError
classify_status http_error status =
    if status == 429
    then record {
      status = status;
      permanent = false;
      provider_fault = false;
      text = http_error status;
    }
    else if leb 500 status
    then record {
      status = status;
      permanent = false;
      provider_fault = true;
      text = http_error status;
    }
    else record {
      status = status;
      permanent = true;
      provider_fault = false;
      text = http_error status;
    }

abbrev pub classify_transport_error : Text → SendError
classify_transport_error text = record {
  status = 0;
  permanent = false;
  provider_fault = true;
  text = text;
}

-- What `client.send` returns: the provider's reference, a SendError, or another error, which
-- `asSendError` treats as a transport failure.
pub data Reply : Type 0 where
  referred : Text → Reply
  send_failed : SendError → Reply
  other_error : Text → Reply

pub record Provider : Type 0 where
  pub name : Text
  pub breaker : Breaker

-- The part of the worker's configuration that dispatching reads.
pub record SendConfig : Type 0 where
  pub circuit_open_duration : ℕ
  pub lease_duration : ℕ

-- The three readings of `dbNow`, in order; the clock of the breakers when provider k is tried, when the
-- result is recorded and when its state is read after that; whether the budget granted a token, and whether shutdown cut the send off.
pub record Attempt : Type 0 where
  pub now_first : ℕ
  pub now_lease : ℕ
  pub now_retry : ℕ
  pub try_at : ℕ → ℕ
  pub record_at : ℕ
  pub state_at : ℕ
  pub granted : Bool
  pub shut_down : Bool
  pub reply : Reply
  pub jitter : ℕ → ℕ

unfoldable pub get_provider : ℕ → List Provider → Option Provider
get_provider i [] = none
get_provider zero (p ∷ ps) = some p
get_provider (suc i) (p ∷ ps) = get_provider i ps

unfoldable pub set_breaker : ℕ → (Breaker → Breaker) → List Provider → List Provider
set_breaker i f [] = []
set_breaker zero f (p ∷ ps) = record p { breaker = f p.breaker } ∷ ps
set_breaker (suc i) f (p ∷ ps) = p ∷ set_breaker i f ps

-- `provider.record`: reading the state for the metrics may turn the circuit half-open.
unfoldable pub report : Bool → Bool → Attempt → Breaker → Breaker
report success counted a b = (state_of a.state_at (record_result success counted a.record_at b)).0

-- The indices that `pick` visits: `count` of them from `start`, modulo n.
unfoldable pub visits : ℕ → ℕ → ℕ → List ℕ
visits start n zero = []
visits start n (suc count) = (start % n) ∷ visits (start + 1) n count

-- Provider k is asked.
unfoldable pub try_provider : ℕ → ℕ → List Provider → List Provider × Bool
try_provider now k [] = ([], false)
try_provider now zero (p ∷ ps) =
    let (b, allowed) = allow now p.breaker in (record p { breaker = b } ∷ ps, allowed)
try_provider now (suc k) (p ∷ ps) = let (ps', allowed) = try_provider now k ps in (p ∷ ps', allowed)

unfoldable pub try_each : (ℕ → ℕ) → List ℕ → List Provider → Option ℕ × List Provider
try_each clock [] ps = (none, ps)
try_each clock (k ∷ ks) ps =
    let (ps', allowed) = try_provider (clock k) k ps in
    let rest = try_each clock ks ps' in if allowed then (some k, ps') else rest

unfoldable pub first_visit : Policy → ℕ → ℕ → ℕ
first_visit pol attempts n = if pol.rotate then attempts % n else 0

-- `pick`: the index of the chosen provider.
unfoldable pub pick : (ℕ → ℕ) → Policy → ℕ → List Provider → Option ℕ × List Provider
pick clock pol attempts ps =
    let n = length ps in try_each clock (visits (first_visit pol attempts n) n n) ps

abbrev pub name_of : Option Provider → Text
name_of none = []
name_of (some p) = p.name

abbrev pub blank : OutcomeKind → Job → Outcome
blank kind j = record {
  kind = kind;
  job = j;
  provider = [];
  provider_ref = [];
  error = [];
  delay = 0;
  reason = none;
  attempted = false;
}

-- The switch at the end of `dispatch`, on an outcome that has the provider and the error.
unfoldable pub failed_outcome : Policy → Attempt → Job → SendError → Outcome → Outcome
failed_outcome pol a j e o =
    let delay = backoff a.jitter pol (j.attempts + 1) in
    if e.permanent
    then record o { kind = outcome_failed; reason = some rejected }
    else if leb pol.max_attempts (j.attempts + 1)
    then record o { kind = outcome_failed; reason = some attempts_exhausted }
    else if leb j.expires_at (a.now_retry + delay)
    then record o { kind = outcome_expired; reason = some ttl_expired; delay = delay }
    else record o { kind = outcome_retry; delay = delay }

unfoldable pub failed_with :
    Policy → Attempt → Job → ℕ → List Provider → SendError → Option Outcome × List Provider
failed_with pol a j k ps e =
    let name = name_of (get_provider k ps) in
    if a.shut_down then (none, set_breaker k (report false false a) ps) else (
      some (
          failed_outcome pol a j e (record (blank outcome_sent j) {
            provider = name;
            error = codes "provider " ++ name ++ codes ": " ++ e.text;
            attempted = true;
          })),
      set_breaker k (report false e.provider_fault a) ps,
    )

unfoldable pub answered :
    Policy → Attempt → Job → ℕ → List Provider → Reply → Option Outcome × List Provider
answered pol a j k ps (referred ref) = (
  some (record (blank outcome_sent j) {
    provider = name_of (get_provider k ps);
    provider_ref = ref;
    attempted = true;
  }),
  set_breaker k (report true false a) ps,
)
answered pol a j k ps (send_failed e) = failed_with pol a j k ps e
answered pol a j k ps (other_error text) = failed_with pol a j k ps (classify_transport_error text)

unfoldable pub send_to :
    SendConfig → Policy → Attempt → Job → ℕ → List Provider → Option Outcome × List Provider
send_to cfg pol a j k ps =
    if a.granted
    then (if leb (j.claim_time + cfg.lease_duration) a.now_lease
        then (some (blank outcome_deferred j), ps)
        else answered pol a j k ps a.reply)
    else (none, set_breaker k (report false false a) ps)

unfoldable pub send_picked :
    SendConfig → Policy → Attempt → Job → Option ℕ × List Provider → Option Outcome × List Provider
send_picked cfg pol a j (none, ps) =
    (some (record (blank outcome_deferred j) { delay = cfg.circuit_open_duration }), ps)
send_picked cfg pol a j (some k, ps) = send_to cfg pol a j k ps

-- `dispatch`: no outcome if shutdown cut the send off.
unfoldable pub dispatch :
    SendConfig → Policy → Attempt → Job → List Provider → Option Outcome × List Provider
dispatch cfg pol a j ps =
    if leb j.expires_at a.now_first
    then (some (record (blank outcome_expired j) { reason = some ttl_expired }), ps)
    else send_picked cfg pol a j (pick a.try_at pol j.attempts ps)

-- `anyUsable`: the breakers that are asked may turn half-open.
unfoldable pub any_usable : ℕ → List Provider → List Provider × Bool
any_usable now [] = ([], false)
any_usable now (p ∷ ps) =
    let (b, can) = usable now p.breaker in
    let (ps', rest) = any_usable now ps in
    let p' = record p { breaker = b } in if can then (p' ∷ ps, true) else (p' ∷ ps', rest)

-- `t.IsZero() || next.Before(t)`
abbrev pub sooner : Option ℕ → ℕ → ℕ
sooner none next = next
sooner (some t) next = if ltb next t then next else t

-- `earliestProbe`, from the time found so far; none is the zero time.
unfoldable pub earliest_probe : Option ℕ → List Provider → Option ℕ
earliest_probe t [] = t
earliest_probe t (p ∷ ps) = earliest_probe (some (sooner t (next_probe p.breaker))) ps

-- `budgetAvailable`; `available` is what a provider's budget grants the class within a second.
unfoldable pub budget_available : ℕ → Bool → (Provider → ℕ) → List Provider → List Provider × ℕ
budget_available now express available [] = ([], 0)
budget_available now express available (p ∷ ps) =
    let (b, can) = usable now p.breaker in
    let (ps', rest) = budget_available now express available ps in
    let p' = record p { breaker = b } in
    if can
    then (if express then (p' ∷ ps', available p + rest) else (p' ∷ ps, available p))
    else (p' ∷ ps', rest)
