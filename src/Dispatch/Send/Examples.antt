-- ===== src/Dispatch/Send/Examples.antt =====
-- A dispatch with two providers, and the witnesses of the theorems about dispatching.
use sms_gateway.Common.{◌≡◌, refl, Bool, true, false, some, [], ◌∷◌, arith}
use sms_gateway.Common.Text.{codes}
use sms_gateway.Message.{express}
use sms_gateway.Dispatch.Policy.{Policy}
use sms_gateway.Dispatch.Circuit.{Breaker, half_open, open_circuit, closed, allow}
use sms_gateway.Dispatch.Send.{
  SendConfig, Attempt, referred, Provider, report, set_breaker, try_provider, try_each, visits,
  first_visit, pick, dispatch,
}
use sms_gateway.Dispatch.Send.Outcomes.{AllOf, Sound, dispatch-Sound}
use sms_gateway.Dispatch.Send.Providers.{dispatch_reports}
use sms_gateway.Examples.Rows.{claimed_job}

abbrev cfg : SendConfig
cfg = record { circuit_open_duration = 500; lease_duration = 1000 }

abbrev pol : Policy
pol = record {
  policy_class = express;
  max_attempts = 3;
  backoff_base = 100;
  backoff_max = 800;
  timeout = 50;
  rotate = true;
}

abbrev attempt : Attempt
attempt = record {
  now_first = 43;
  now_lease = 44;
  now_retry = 60;
  try_at = λ k. 900;
  record_at = 920;
  state_at = 921;
  granted = true;
  shut_down = false;
  reply = referred (codes "r-1");
  jitter = λ n. n;
}

abbrev tripped : Breaker
tripped = record {
  threshold = 3;
  open_for = 500;
  state = open_circuit;
  failures = 0;
  opened_at = 700;
  probing = false;
}

abbrev first : Provider
first = record { name = codes "a"; breaker = tripped }

abbrev second : Provider
second = record { name = codes "b"; breaker = record tripped { state = closed; opened_at = 0 } }

abbrev due_first : Provider
due_first = record first { breaker = record tripped { opened_at = 400 } }

-- The first provider is open, so the second is chosen.
pick-second : pick (λ k. 900) pol 0 (first ∷ second ∷ []) ≡ (some 1, first ∷ second ∷ [])
unfolding pick visits first_visit try_each try_provider allow
pick-second = refl

dispatch-Sound_example :
    AllOf
      (Sound cfg pol attempt claimed_job)
      (dispatch cfg pol attempt claimed_job (first ∷ second ∷ [])).0
dispatch-Sound_example = dispatch-Sound cfg pol attempt claimed_job (first ∷ second ∷ [])

dispatch_reports_example :
    (success : Bool) × (counted : Bool) × ((dispatch cfg pol attempt claimed_job
        (first ∷ second ∷ [])).1
      ≡ set_breaker 1 (report success counted attempt) (first ∷ second ∷ []))
dispatch_reports_example =
    dispatch_reports cfg pol attempt claimed_job (first ∷ second ∷ []) (first ∷ second ∷ []) 1
      pick-second (omega arith) (omega arith)

-- The first provider with its probe out.
abbrev probing_first : Provider
probing_first = record first {
  breaker = record tripped { opened_at = 400; state = half_open; probing = true };
}
