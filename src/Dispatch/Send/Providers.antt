-- ===== src/Dispatch/Send/Providers.antt =====
-- Choosing a provider, and what a dispatch records at its breaker.
use sms_gateway.Common.{
  ℕ, zero, suc, ◌+◌, ◌≤◌, ◌<◌, ◌≡◌, refl, ◌≢◌, ap, Bool, true, false, Option, none, some, List, [],
  ◌∷◌, leb, ltb, ◌==◌, ◌||◌, any, length, if◌then◌else◌, arith, All, Bool-cases, inl, inr,
}
use sms_gateway.Dispatch.Job.{Job, Outcome}
use sms_gateway.Dispatch.Policy.{Policy}
use sms_gateway.Dispatch.Circuit.{Breaker, closed, half_open, usable, next_probe}
use sms_gateway.Dispatch.Circuit.Laws.{unusable_stays}
use sms_gateway.Dispatch.Send.{
  SendConfig, Attempt, Reply, referred, send_failed, other_error, Provider, get_provider, report,
  set_breaker, visits, try_provider, try_each, first_visit, pick, SendError, failed_with, answered,
  send_to, send_picked, dispatch, any_usable, earliest_probe,
}

abbrev Unusable : ℕ → List Provider → Type 0
Unusable now = All (λ p. (usable now p.breaker).1 ≡ false)

any_usable-Unusable :
    (now : ℕ) (ps : List Provider) → (any_usable now ps).1 ≡ false → Unusable now ps
unfolding any_usable
any_usable-Unusable now [] h = tt
any_usable-Unusable now (p ∷ ps) h = elim (Bool-cases (usable now p.breaker).1) [
  | inl can ↦ ground (arith, h, can)
  | inr cannot ↦ (cannot, any_usable-Unusable now ps (ground (arith, h, cannot)))
]

try_provider-Unusable :
    (now k : ℕ) (ps : List Provider)
    → Unusable now ps
    → ((try_provider now k ps).1 ≡ false) × Unusable now (try_provider now k ps).0
unfolding try_provider
try_provider-Unusable now k [] u = (refl, tt)
try_provider-Unusable now zero (p ∷ ps) u =
    let (refused, stays) = unusable_stays now p.breaker u.0 in (refused, (stays, u.1))
try_provider-Unusable now (suc k) (p ∷ ps) u =
    let (refused, stays) = try_provider-Unusable now k ps u.1 in (refused, (u.0, stays))

try_each-Unusable :
    (now : ℕ) (ks : List ℕ) (ps : List Provider)
    → Unusable now ps
    → (try_each (λ k. now) ks ps).0 ≡ none
unfolding try_each
try_each-Unusable now [] ps u = refl
try_each-Unusable now (k ∷ ks) ps u =
    let (refused, stays) = try_provider-Unusable now k ps u in
    rw (refused, try_each) (try_each-Unusable now ks (try_provider now k ps).0 stays)

-- When no provider is usable, `pick` at the same time finds none, for every policy and attempt.
pub pick_unusable :
    (now attempts : ℕ) (pol : Policy) (ps : List Provider)
    → (any_usable now ps).1 ≡ false
    → (pick (λ k. now) pol attempts ps).0 ≡ none
unfolding pick
pick_unusable now attempts pol ps h =
    try_each-Unusable now (visits (first_visit pol attempts (length ps)) (length ps) (length ps)) ps
      (any_usable-Unusable now ps h)

earliest_from :
    (t : ℕ) (ps : List Provider) (u : ℕ)
    → earliest_probe (some t) ps ≡ some u
    → (u ≤ t)
      × All (λ p. u ≤ next_probe p.breaker) ps
      × ((t == u || any (λ p. next_probe p.breaker == u) ps) ≡ true)
unfolding earliest_probe
earliest_from t [] u h = ground arith
earliest_from t (p ∷ ps) u h =
    let (below, all_below, hit) =
      earliest_from (if ltb (next_probe p.breaker) t then next_probe p.breaker else t) ps u h in
    (ground (arith, below), (ground (arith, below), all_below), ground (arith, hit))

-- The time found is the least of the providers' probe times.
pub earliest_probe-least :
    (p : Provider) (ps : List Provider) (u : ℕ)
    → earliest_probe none (p ∷ ps) ≡ some u
    → All (λ q. u ≤ next_probe q.breaker) (p ∷ ps)
      × (any (λ q. next_probe q.breaker == u) (p ∷ ps) ≡ true)
unfolding earliest_probe
earliest_probe-least p ps u h =
    let (below, all_below, hit) = earliest_from (next_probe p.breaker) ps u h in
    ((below, all_below), ground (arith, hit))

picked_live :
    (cfg : SendConfig) (pol : Policy) (a : Attempt) (j : Job) (ps ps' : List Provider) (k : ℕ)
    → pick a.try_at pol j.attempts ps ≡ (some k, ps')
    → a.now_first < j.expires_at
    → dispatch cfg pol a j ps ≡ send_to cfg pol a j k ps'
unfolding dispatch send_picked
picked_live cfg pol a j ps ps' k found live =
    let e : leb j.expires_at a.now_first ≡ false = ground arith in
    let rest : send_picked cfg pol a j (pick a.try_at pol j.attempts ps)
        ≡ send_to cfg pol a j k ps' =
      ap (send_picked cfg pol a j) found in
    rw e rest

-- One result is recorded at provider k, and nothing else changes.
abbrev Recorded : Attempt → ℕ → List Provider → Option Outcome × List Provider → Type 0
Recorded a k ps r =
    (success : Bool) × (counted : Bool) × (r.1 ≡ set_breaker k (report success counted a) ps)

Recorded-if :
    (a : Attempt) (k : ℕ) (ps : List Provider) (c : Bool) (x y : Option Outcome × List Provider)
    → (c ≡ true → Recorded a k ps x)
    → (c ≡ false → Recorded a k ps y)
    → Recorded a k ps (if c then x else y)
Recorded-if a k ps true x y f g = f refl
Recorded-if a k ps false x y f g = g refl

failed_with-Recorded :
    (pol : Policy) (a : Attempt) (j : Job) (k : ℕ) (ps : List Provider) (e : SendError)
    → Recorded a k ps (failed_with pol a j k ps e)
unfolding failed_with
failed_with-Recorded pol a j k ps e =
    Recorded-if a k ps a.shut_down _ _ (λ h. (false, false, refl))
      (λ h. (false, e.provider_fault, refl))

answered-Recorded :
    (pol : Policy) (a : Attempt) (j : Job) (k : ℕ) (ps : List Provider) (r : Reply)
    → Recorded a k ps (answered pol a j k ps r)
unfolding answered
answered-Recorded pol a j k ps (referred ref) = (true, false, refl)
answered-Recorded pol a j k ps (send_failed e) = failed_with-Recorded pol a j k ps e
answered-Recorded pol a j k ps (other_error t) = failed_with-Recorded pol a j k ps _

-- Every dispatch that picks a provider, cut off or not, records one result at that provider and
-- nowhere else, provided the lease is still in force once the budget grants the request.
pub dispatch_reports :
    (cfg : SendConfig) (pol : Policy) (a : Attempt) (j : Job) (ps ps' : List Provider) (k : ℕ)
    → pick a.try_at pol j.attempts ps ≡ (some k, ps')
    → a.now_first < j.expires_at
    → a.now_lease < j.claim_time + cfg.lease_duration
    → (success : Bool) × (counted : Bool) × ((dispatch cfg pol a j ps).1
        ≡ set_breaker k (report success counted a) ps')
unfolding send_to
dispatch_reports cfg pol a j ps ps' k found live held =
    rw (picked_live cfg pol a j ps ps' k found live) (
      Recorded-if a k ps' a.granted _ _
        (λ g.
          Recorded-if a k ps' (leb (j.claim_time + cfg.lease_duration) a.now_lease) _ _
            (λ over. absurd (impossible over)) (λ h. answered-Recorded pol a j k ps' a.reply))
        (λ g. (false, false, refl)))
  where
    impossible : leb (j.claim_time + cfg.lease_duration) a.now_lease ≡ true → ⊥
    impossible over = ground (arith, over, held)

-- The breaker has granted a request: if it is not closed, this was its probe, which is out.
Granted : Breaker → Type 0
Granted b = b.state ≢ closed → (b.state ≡ half_open) × (b.probing ≡ true)

-- The breaker of a picked provider.
PickGranted : Option ℕ × List Provider → Type 0
PickGranted (none, ps) = Unit
PickGranted (some k, ps) = (p : Provider) → get_provider k ps ≡ some p → Granted p.breaker
