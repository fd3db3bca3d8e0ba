-- ===== src/Dispatch/Circuit/Probe.antt =====
-- The single probe of a half-open circuit.
use sms_gateway.Common.{
  ℕ, ◌+◌, ◌≤◌, ◌≡◌, refl, ◌≢◌, ◌⊎◌, inl, inr, Bool, true, false, List, [], ◌∷◌, ◌++◌, ap, ◌∙◌,
  if◌then◌else◌, arith, All,
}
use sms_gateway.Dispatch.Circuit.Laws.{due_probe}
use sms_gateway.Dispatch.Circuit.{
  Breaker, closed, half_open, open_circuit, allow, usable, record_result, state_of, Call, after,
  run, calls_allow, calls_usable, calls_state, calls_record,
}

-- The call reports no result.
abbrev pub IsQuiet : ℕ × Call → Type 0
IsQuiet (now, calls_record s c) = ⊥
IsQuiet _ = Unit

granted : ℕ × Call → Breaker → ℕ
granted (now, calls_allow) b = if (allow now b).1 then 1 else 0
granted (now, calls_usable) b = 0
granted (now, calls_state) b = 0
granted (now, calls_record s c) b = 0

-- How many calls of `allow` in a history grant a request.
pub grants : List (ℕ × Call) → Breaker → ℕ
grants [] b = 0
grants (c ∷ cs) b = granted c b + grants cs (after c b)

quiet_step :
    (c : ℕ × Call) (b : Breaker)
    → IsQuiet c
    → b.state ≡ half_open
    → b.probing ≡ true
    → (granted c b ≡ 0) × (after c b ≡ b)
unfolding granted after allow usable state_of
quiet_step (now, calls_allow) b q h p = ground arith
quiet_step (now, calls_usable) b q h p = ground arith
quiet_step (now, calls_state) b q h p = ground arith
quiet_step (now, calls_record s c) b q h p = absurd q

-- While a probe is out, and until some result is recorded, no call grants a request or changes the
-- breaker, at whatever times the calls come: an unrecorded probe blocks the provider for ever.
pub probe_blocks :
    (cs : List (ℕ × Call)) (b : Breaker)
    → b.state ≡ half_open
    → b.probing ≡ true
    → All IsQuiet cs
    → (grants cs b ≡ 0) × (run cs b ≡ b)
unfolding grants run
probe_blocks [] b h p q = (refl, refl)
probe_blocks (c ∷ cs) b h p q =
    let (none_granted, same) = quiet_step c b q.0 h p in
    let (rest, end) = probe_blocks cs b h p q.1 in (rw same (omega arith), rw same end)

first_grant :
    (c : ℕ × Call) (b : Breaker)
    → IsQuiet c
    → b.state ≢ closed
    → (granted c b ≡ 0) × ((after c b).state ≢ closed)
      ⊎ (granted c b ≡ 1) × ((after c b).state ≡ half_open) × ((after c b).probing ≡ true)
unfolding granted after allow usable state_of
first_grant (now, calls_allow) b q h = ground arith
first_grant (now, calls_usable) b q h = ground arith
first_grant (now, calls_state) b q h = ground arith
first_grant (now, calls_record s c) b q h = absurd q

-- Until a result is recorded, a circuit that is not closed grants at most one request.
pub grants-le-one :
    (cs : List (ℕ × Call)) (b : Breaker) → b.state ≢ closed → All IsQuiet cs → grants cs b ≤ 1
unfolding grants
grants-le-one [] b h q = omega arith
grants-le-one (c ∷ cs) b h q = elim (first_grant c b q.0 h) [
  | inl (none_granted, kept) ↦ omega (arith, grants-le-one cs (after c b) kept q.1)
  | inr (one, half, probe) ↦ omega (arith, probe_blocks cs (after c b) half probe q.1)
]

run-append : (cs ds : List (ℕ × Call)) (b : Breaker) → run (cs ++ ds) b ≡ run ds (run cs b)
unfolding run
run-append [] ds b = refl
run-append (c ∷ cs) ds b = run-append cs ds (after c b)

grants-append :
    (cs ds : List (ℕ × Call)) (b : Breaker)
    → grants (cs ++ ds) b ≡ grants cs b + grants ds (run cs b)
unfolding grants run
grants-append [] ds b = omega arith
grants-append (c ∷ cs) ds b = omega (arith, grants-append cs ds (after c b))

result_ends_probe : (s c : Bool) (now : ℕ) (b : Breaker) → (record_result s c now b).probing ≡ false
unfolding record_result
result_ends_probe s c now b = ground arith

probe_taken :
    (t : ℕ) (b : Breaker)
    → b.state ≡ open_circuit
    → b.probing ≡ false
    → b.opened_at + b.open_for ≤ t
    → (granted (t, calls_allow) b ≡ 1)
      × (after (t, calls_allow) b ≡ record b { state = half_open; probing = true })
unfolding granted after
probe_taken t b o idle due = let e = due_probe t b o idle due in (rw e refl, ap (λ r. r.0) e)

second_probe :
    (now later : ℕ) (p : Breaker)
    → p.state ≡ half_open
    → 0 + grants ((now, calls_record false false) ∷ (later, calls_allow) ∷ []) p ≡ 1
unfolding grants granted after allow record_result
second_probe now later p h = ground arith

-- Once an open circuit that is due has granted its probe, and with any other calls after that: a result
-- ends the probe, whichever request it belongs to and whatever it says. If it is a failure that is not
-- counted, such as that of a request which was sent before the circuit opened, the next `allow` grants a
-- second request, although no result of the probe has been recorded.
pub late_result_frees_probe :
    (t now later : ℕ) (s c : Bool) (cs : List (ℕ × Call)) (b : Breaker)
    → b.state ≡ open_circuit
    → b.probing ≡ false
    → b.opened_at + b.open_for ≤ t
    → All IsQuiet cs
    → ((run ((t, calls_allow) ∷ cs ++ (now, calls_record s c) ∷ []) b).probing ≡ false)
      × (grants
            ((t, calls_allow) ∷ cs ++ (now, calls_record false false) ∷ (later, calls_allow) ∷ [])
            b
          ≡ 2)
unfolding run grants
late_result_frees_probe t now later s c cs b o idle due quiet =
    let p : Breaker = record b { state = half_open; probing = true } in
    let (first, took) = probe_taken t b o idle due in
    let (none_granted, same) = probe_blocks cs p refl refl quiet in
    let late = (now, calls_record false false) ∷ (later, calls_allow) ∷ [] in
    let rest : grants (cs ++ late) p ≡ 1 =
      grants-append cs late p ∙ rw (none_granted, same) (second_probe now later p refl) in
    (
      ap (λ z. (run (cs ++ (now, calls_record s c) ∷ []) z).probing) took
          ∙ ap (λ z. z.probing) (run-append cs ((now, calls_record s c) ∷ []) p)
          ∙ rw same (result_ends_probe s c now p),
      omega (arith, first, ap (grants (cs ++ late)) took, rest),
    )
