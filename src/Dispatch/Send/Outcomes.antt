-- ===== src/Dispatch/Send/Outcomes.antt =====
-- What an outcome of `dispatch` says about the job and the attempt.
use sms_gateway.Common.{
  ℕ, ◌+◌, ◌<◌, ◌≡◌, refl, Bool, true, false, Option, none, some, List, leb, if◌then◌else◌, arith,
  Bool-cases, inl, inr,
}
use sms_gateway.Store.Tables.{is_null}
use sms_gateway.Dispatch.Job.{Job, Outcome, outcome_retry}
use sms_gateway.Dispatch.Policy.{Policy, backoff}
use sms_gateway.Dispatch.Completer.{is_terminal_kind}
use sms_gateway.Dispatch.Send.{
  SendConfig, SendError, Attempt, Reply, referred, send_failed, other_error, Provider, pick,
  failed_outcome, failed_with, answered, send_to, send_picked, dispatch,
}

-- What every outcome of a job has; `first` is the clock that the first check read.
pub record Sound (cfg : SendConfig) (pol : Policy) (a : Attempt) (j : Job) (o : Outcome)
    : Type 0 where
  pub same_job : o.job ≡ j
  -- a terminal outcome gives its reason and no other does, as the schema requires of the row
  pub reasoned : is_null o.reason ≡ (if is_terminal_kind o.kind then false else true)
  -- a retry has an attempt left, and starts before the message expires
  pub retried :
      o.kind ≡ outcome_retry
      → (j.attempts + 1 < pol.max_attempts) × (a.now_retry + o.delay < j.expires_at)
  -- a request counts as an attempt, and is made only under a lease in force, before the expiry
  pub attempts :
      o.attempted ≡ true
      → (a.now_first < j.expires_at) × (a.now_lease < j.claim_time + cfg.lease_duration)

abbrev pub AllOf : (Outcome → Type 0) → Option Outcome → Type 0
AllOf P none = Unit
AllOf P (some o) = P o

AllOf-if :
    (P : Outcome → Type 0) (c : Bool) (x y : Option Outcome × List Provider)
    → (c ≡ true → AllOf P x.0)
    → (c ≡ false → AllOf P y.0)
    → AllOf P (if c then x else y).0
AllOf-if P true x y f g = f refl
AllOf-if P false x y f g = g refl

failed_outcome-Sound :
    (cfg : SendConfig) (pol : Policy) (a : Attempt) (j : Job) (e : SendError) (o : Outcome)
    → a.now_first < j.expires_at
    → a.now_lease < j.claim_time + cfg.lease_duration
    → o.job ≡ j
    → o.reason ≡ none
    → Sound cfg pol a j (failed_outcome pol a j e o)
unfolding failed_outcome
failed_outcome-Sound cfg pol a j e o h l s n = elim (Bool-cases e.permanent) [
  | inl final ↦
      rw (final, failed_outcome)
        (record {
          same_job = s;
          reasoned = refl;
          retried = λ k. ground (arith, k);
          attempts = λ k. (h, l);
        })
  | inr again ↦ elim (Bool-cases (leb pol.max_attempts (j.attempts + 1))) [
    | inl out ↦
        rw (again, out, failed_outcome)
          (record {
            same_job = s;
            reasoned = refl;
            retried = λ k. ground (arith, k);
            attempts = λ k. (h, l);
          })
    | inr left ↦
        elim (Bool-cases (leb j.expires_at (a.now_retry + backoff a.jitter pol (j.attempts + 1)))) [
          | inl late ↦
              rw (again, left, late, failed_outcome)
                (record {
                  same_job = s;
                  reasoned = refl;
                  retried = λ k. ground (arith, k);
                  attempts = λ k. (h, l);
                })
          | inr early ↦
              rw (again, left, early, failed_outcome)
                (record {
                  same_job = s;
                  reasoned = rw n refl;
                  retried = λ k. (ground (arith, left), ground (arith, early));
                  attempts = λ k. (h, l);
                })
        ]
  ]
]

failed_with-Sound :
    (cfg : SendConfig) (pol : Policy) (a : Attempt) (j : Job) (k : ℕ) (ps : List Provider)
    (e : SendError)
    → a.now_first < j.expires_at
    → a.now_lease < j.claim_time + cfg.lease_duration
    → AllOf (Sound cfg pol a j) (failed_with pol a j k ps e).0
unfolding failed_with
failed_with-Sound cfg pol a j k ps e h l =
    AllOf-if (Sound cfg pol a j) a.shut_down _ _ (λ down. tt)
      (λ up. failed_outcome-Sound cfg pol a j e _ h l refl refl)

answered-Sound :
    (cfg : SendConfig) (pol : Policy) (a : Attempt) (j : Job) (k : ℕ) (ps : List Provider)
    (r : Reply)
    → a.now_first < j.expires_at
    → a.now_lease < j.claim_time + cfg.lease_duration
    → AllOf (Sound cfg pol a j) (answered pol a j k ps r).0
unfolding answered
answered-Sound cfg pol a j k ps (referred ref) h l = record {
  same_job = refl;
  reasoned = refl;
  retried = λ e. ground (arith, e);
  attempts = λ e. (h, l);
}
answered-Sound cfg pol a j k ps (send_failed e) h l = failed_with-Sound cfg pol a j k ps e h l
answered-Sound cfg pol a j k ps (other_error t) h l = failed_with-Sound cfg pol a j k ps _ h l

send_to-Sound :
    (cfg : SendConfig) (pol : Policy) (a : Attempt) (j : Job) (k : ℕ) (ps : List Provider)
    → a.now_first < j.expires_at
    → AllOf (Sound cfg pol a j) (send_to cfg pol a j k ps).0
unfolding send_to
send_to-Sound cfg pol a j k ps h =
    AllOf-if (Sound cfg pol a j) a.granted _ _
      (λ granted.
        AllOf-if (Sound cfg pol a j) (leb (j.claim_time + cfg.lease_duration) a.now_lease) _ _
          (λ over. record {
            same_job = refl;
            reasoned = refl;
            retried = λ e. ground (arith, e);
            attempts = λ e. ground (arith, e);
          })
          (λ held. answered-Sound cfg pol a j k ps a.reply h (ground (arith, held))))
      (λ refused. tt)

send_picked-Sound :
    (cfg : SendConfig) (pol : Policy) (a : Attempt) (j : Job) (found : Option ℕ × List Provider)
    → a.now_first < j.expires_at
    → AllOf (Sound cfg pol a j) (send_picked cfg pol a j found).0
unfolding send_picked
send_picked-Sound cfg pol a j (none, ps) h = record {
  same_job = refl;
  reasoned = refl;
  retried = λ e. ground (arith, e);
  attempts = λ e. ground (arith, e);
}
send_picked-Sound cfg pol a j (some k, ps) h = send_to-Sound cfg pol a j k ps h

-- Every outcome of a dispatch, whatever the clocks, the providers and their replies: is of the job;
-- has a failure reason exactly if it ends the message; asks for a retry only if an attempt is left and
-- the retry starts before the message expires; and counts an attempt only if the message had not
-- expired at the first check and the lease was in force just before the request.
pub dispatch-Sound :
    (cfg : SendConfig) (pol : Policy) (a : Attempt) (j : Job) (ps : List Provider)
    → AllOf (Sound cfg pol a j) (dispatch cfg pol a j ps).0
unfolding dispatch
dispatch-Sound cfg pol a j ps =
    AllOf-if (Sound cfg pol a j) (leb j.expires_at a.now_first) _ _
      (λ dead. record {
        same_job = refl;
        reasoned = refl;
        retried = λ e. ground (arith, e);
        attempts = λ e. ground (arith, e);
      })
      (λ live.
        send_picked-Sound cfg pol a j (pick a.try_at pol j.attempts ps) (ground (arith, live)))
