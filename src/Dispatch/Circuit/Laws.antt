-- ===== src/Dispatch/Circuit/Laws.antt =====
-- What holds of a circuit breaker after any history of calls.
use sms_gateway.Common.{
  ℕ, ◌+◌, ◌≤◌, ◌<◌, ◌≡◌, Bool, true, false, ◌&&◌, not, ◌||◌, length, List, [], ◌∷◌, leb, arith,
}
use sms_gateway.Dispatch.Circuit.{
  Breaker, CircuitState, closed, half_open, open_circuit, new_breaker, allow, usable, record_result,
  state_of, Call, after, run, calls_allow, calls_usable, calls_state, calls_record,
}

pub record IsValid (b : Breaker) : Type 0 where
  pub failures_below : b.failures < b.threshold
  pub probe_half_open : b.probing ≡ true → b.state ≡ half_open

after-IsValid : (c : ℕ × Call) (b : Breaker) → IsValid b → IsValid (after c b)
unfolding after allow usable state_of record_result
after-IsValid (now, calls_allow) b v = ground arith
after-IsValid (now, calls_usable) b v = ground arith
after-IsValid (now, calls_state) b v = ground arith
after-IsValid (now, calls_record s c) b v = ground arith

run_from-IsValid : (cs : List (ℕ × Call)) (b : Breaker) → IsValid b → IsValid (run cs b)
unfolding run
run_from-IsValid [] b v = v
run_from-IsValid (c ∷ cs) b v = run_from-IsValid cs (after c b) (after-IsValid c b v)

-- After any calls on a new breaker with a positive threshold, fewer failures are counted than the
-- threshold, and a probe is marked only while the circuit is half-open.
pub run-IsValid :
    (threshold open_for : ℕ) (cs : List (ℕ × Call))
    → 1 ≤ threshold
    → IsValid (run cs (new_breaker threshold open_for))
unfolding new_breaker
run-IsValid t f cs h =
    run_from-IsValid cs _ (record { failures_below = omega arith; probe_half_open = λ e. cc })

abbrev pub is_half_open : CircuitState → Bool
is_half_open half_open = true
is_half_open _ = false

-- `usable` answers as `allow` would at the same time and changes no more than reading the state
-- does; `allow` changes besides that only the probe mark, which is set whenever it is called on a
-- circuit that is then half-open.
pub usable-allow :
    (now : ℕ) (b : Breaker)
    → ((usable now b).1 ≡ (allow now b).1)
      × ((usable now b).0 ≡ (state_of now b).0)
      × ((allow now b).0
          ≡ record (state_of now b).0 { probing = is_half_open (state_of now b).1 || b.probing })
unfolding usable allow state_of
usable-allow now b = (ground arith, ground arith, ground arith)

-- An open circuit grants nothing before its pause has elapsed, and grants a request at any time
-- from then on unless a probe is marked.
pub allow_open :
    (now : ℕ) (b : Breaker)
    → b.state ≡ open_circuit
    → (allow now b).1 ≡ (leb (b.opened_at + b.open_for) now && not b.probing)
unfolding allow
allow_open now b h = ground arith

-- Counted failures, one at each of the given times.
pub fail_at : List ℕ → Breaker → Breaker
fail_at [] b = b
fail_at (t ∷ ts) b = fail_at ts (record_result false true t b)

fail_at_below :
    (ts : List ℕ) (b : Breaker)
    → b.state ≡ closed
    → b.probing ≡ false
    → b.failures + length ts < b.threshold
    → fail_at ts b ≡ record b { failures = b.failures + length ts }
unfolding fail_at record_result
fail_at_below [] b c p h = ground arith
fail_at_below (t ∷ ts) b c p h =
    ground (arith, fail_at_below ts (record b { probing = false; failures = b.failures + 1 }) c)

-- A closed circuit with no failure counted stays closed for one counted failure less than its
-- threshold, and the next one opens it at its own time and clears the count.
pub fail_at_trips :
    (ts : List ℕ) (t : ℕ) (b : Breaker)
    → b.state ≡ closed
    → b.probing ≡ false
    → b.failures ≡ 0
    → length ts + 1 ≡ b.threshold
    → ((fail_at ts b).state ≡ closed)
      × (record_result false true t (fail_at ts b)
          ≡ record b { state = open_circuit; opened_at = t; failures = 0 })
unfolding record_result
fail_at_trips ts t b c p z e = ground (arith, fail_at_below ts b c p)

-- A provider that is not usable is refused, and stays so at that time.
pub unusable_stays :
    (now : ℕ) (b : Breaker)
    → (usable now b).1 ≡ false
    → ((allow now b).1 ≡ false) × ((usable now (allow now b).0).1 ≡ false)
unfolding usable allow
unusable_stays now b h = ground arith

-- The first request after the open time is granted as the probe.
pub due_probe :
    (now : ℕ) (b : Breaker)
    → b.state ≡ open_circuit
    → b.probing ≡ false
    → b.opened_at + b.open_for ≤ now
    → allow now b ≡ (record b { state = half_open; probing = true }, true)
unfolding allow
due_probe now b h p late = ground arith
