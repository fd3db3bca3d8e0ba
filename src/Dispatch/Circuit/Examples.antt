-- ===== src/Dispatch/Circuit/Examples.antt =====
-- Runs of the circuit breaker and the witnesses of its theorems.
use sms_gateway.Common.{ℕ, ◌≤◌, ◌≡◌, refl, true, false, List, [], ◌∷◌, ◌++◌, arith}
use sms_gateway.Dispatch.Circuit.{
  Breaker, closed, half_open, open_circuit, new_breaker, allow, usable, Call, run, calls_allow,
  calls_usable, calls_record,
}
use sms_gateway.Dispatch.Circuit.Laws.{IsValid, run-IsValid}
use sms_gateway.Dispatch.Circuit.Probe.{
  grants, probe_blocks, grants-le-one, late_result_frees_probe,
}

abbrev fresh : Breaker
fresh = record {
  threshold = 3;
  open_for = 10;
  state = closed;
  failures = 0;
  opened_at = 0;
  probing = false;
}

abbrev opened : Breaker
opened = record fresh { state = open_circuit; opened_at = 7 }

abbrev probed : Breaker
probed = record opened { state = half_open; probing = true }

abbrev history : List (ℕ × Call)
history = (12, calls_allow) ∷ (17, calls_usable) ∷ (17, calls_allow) ∷ (30, calls_allow) ∷ []

history-probed : run history opened ≡ probed
unfolding run allow usable
history-probed = refl

run-IsValid_example : IsValid (run history (new_breaker 3 10))
run-IsValid_example = run-IsValid 3 10 history (omega arith)

probe_blocks_example : (grants history probed ≡ 0) × (run history probed ≡ probed)
probe_blocks_example = probe_blocks history probed refl refl (omega arith)

grants-le-one_example : grants history opened ≤ 1
grants-le-one_example = grants-le-one history opened (λ e. cc) (omega arith)

late_result_frees_probe_example :
    ((run ((17, calls_allow) ∷ history ++ (20, calls_record true false) ∷ []) opened).probing
      ≡ false)
    × (grants
          ((17, calls_allow) ∷ history ++ (20, calls_record false false) ∷ (21, calls_allow) ∷ [])
          opened
        ≡ 2)
late_result_frees_probe_example =
    late_result_frees_probe 17 20 21 true false history opened refl refl (omega arith) (omega arith)
