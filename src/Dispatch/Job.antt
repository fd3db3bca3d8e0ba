-- ===== src/Dispatch/Job.antt =====
-- internal/dispatch: a claimed message (claim.go) and the outcome of dispatching it (send.go).
use sms_gateway.Common.{ℕ, Bool, Option}
use sms_gateway.Common.Text.{Text}
use sms_gateway.Message.{MessageType, FailureReason}

pub record Job : Type 0 where
  pub id : ℕ
  pub customer_id : ℕ
  pub message_type : MessageType
  pub recipient : Text
  pub body : Text
  pub attempts : ℕ
  pub accepted_at : ℕ
  pub expires_at : ℕ
  pub lease_version : ℕ
  pub claim_time : ℕ  -- `DBNow`

pub data OutcomeKind : Type 0 where
  outcome_sent outcome_retry outcome_deferred outcome_failed outcome_expired : OutcomeKind

pub record Outcome : Type 0 where
  pub kind : OutcomeKind
  pub job : Job
  pub provider : Text
  pub provider_ref : Text
  pub error : Text
  pub delay : ℕ
  pub reason : Option FailureReason
  pub attempted : Bool
