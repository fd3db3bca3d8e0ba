-- ===== src/Dispatch/Circuit.antt =====
-- internal/dispatch/circuit.go: the circuit breaker of one provider. A method that changes the
-- breaker returns the new record; the time that it reads is an argument, in nanoseconds. The mutex
-- makes each call atomic, so a history is a list of calls.
pub mod Laws
pub mod Probe
mod Examples
use sms_gateway.Common.{ℕ, ◌+◌, Bool, true, false, ◌&&◌, not, List, [], ◌∷◌, leb, if◌then◌else◌}

pub data CircuitState : Type 0 where
  closed half_open open_circuit : CircuitState

pub record Breaker : Type 0 where
  pub threshold : ℕ
  pub open_for : ℕ
  pub state : CircuitState
  pub failures : ℕ
  pub opened_at : ℕ
  pub probing : Bool

unfoldable pub new_breaker : ℕ → ℕ → Breaker
new_breaker threshold open_for = record {
  threshold = threshold;
  open_for = open_for;
  state = closed;
  failures = 0;
  opened_at = 0;
  probing = false;
}

abbrev pub is_open : CircuitState → Bool
is_open open_circuit = true
is_open _ = false

-- `currentLocked`: an open circuit turns half-open once `open_for` has elapsed.
unfoldable pub current_locked : ℕ → Breaker → Breaker
current_locked now b =
    if is_open b.state && leb (b.opened_at + b.open_for) now
    then record b { state = half_open }
    else b

allow_in : CircuitState → Breaker → Breaker × Bool
allow_in closed b = (b, true)
allow_in half_open b = if b.probing then (b, false) else (record b { probing = true }, true)
allow_in open_circuit b = (b, false)

unfoldable pub allow : ℕ → Breaker → Breaker × Bool
unfolding allow_in current_locked
allow now b = let c = current_locked now b in allow_in c.state c

usable_in : CircuitState → Breaker → Breaker × Bool
usable_in closed b = (b, true)
usable_in half_open b = (b, not b.probing)
usable_in open_circuit b = (b, false)

unfoldable pub usable : ℕ → Breaker → Breaker × Bool
unfolding usable_in current_locked
usable now b = let c = current_locked now b in usable_in c.state c

unfoldable pub next_probe : Breaker → ℕ
next_probe b = b.opened_at + b.open_for

-- `record`: the result of an allowed request.
unfoldable pub record_result : Bool → Bool → ℕ → Breaker → Breaker
record_result success counted now b =
    let ended = record b { probing = false } in
    if success
    then record ended { state = closed; failures = 0 }
    else if b.probing && counted
    then record ended { state = open_circuit; opened_at = now }
    else if counted
    then (if leb b.threshold (b.failures + 1)
        then record ended { state = open_circuit; opened_at = now; failures = 0 }
        else record ended { failures = b.failures + 1 })
    else ended

-- `State`
unfoldable pub state_of : ℕ → Breaker → Breaker × CircuitState
unfolding current_locked
state_of now b = let c = current_locked now b in (c, c.state)

pub data Call : Type 0 where
  calls_allow calls_usable calls_state : Call
  calls_record : Bool → Bool → Call

unfoldable pub after : ℕ × Call → Breaker → Breaker
after (now, calls_allow) b = (allow now b).0
after (now, calls_usable) b = (usable now b).0
after (now, calls_state) b = (state_of now b).0
after (now, calls_record success counted) b = record_result success counted now b

unfoldable pub run : List (ℕ × Call) → Breaker → Breaker
unfolding after
run [] b = b
run (c ∷ cs) b = run cs (after c b)
