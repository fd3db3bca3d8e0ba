-- ===== src/Message.antt =====
-- internal/message: the stored message (message.go) and the price of a message (price.go).
use sms_gateway.Common.{ℕ, ◌*◌, Bool, true, false, Option, none, some, if◌then◌else◌}
use sms_gateway.Common.Text.{Text, codes, text_eq}
use sms_gateway.Segment.{Encoding}

pub data MessageType : Type 0 where
  normal express : MessageType

unfoldable pub parse_type : Text → Option MessageType
parse_type s =
    if text_eq s (codes "normal")
    then some normal
    else if text_eq s (codes "express")
    then some express
    else none

pub data Status : Type 0 where
  accepted sent delivered undelivered failed expired : Status

pub data FailureReason : Type 0 where
  rejected attempts_exhausted ttl_expired : FailureReason

-- A row of the table `messages`. Times are in nanoseconds.
pub record Message : Type 0 where
  pub id : ℕ
  pub customer_id : ℕ
  pub message_type : MessageType
  pub recipient : Text
  pub body : Text
  pub encoding : Encoding
  pub segments : ℕ
  pub cost : ℕ
  pub status : Status
  pub attempts : ℕ
  pub provider : Option Text
  pub provider_ref : Option Text
  pub last_error : Option Text
  pub failure_reason : Option FailureReason
  pub sla_breached : Bool
  pub client_ref : Option Text
  pub accepted_at : ℕ
  pub expires_at : ℕ
  pub sent_at : Option ℕ
  pub completed_at : Option ℕ
  pub updated_at : ℕ

abbrev pub is_express : MessageType → Bool
is_express express = true
is_express normal = false

abbrev pub is_accepted : Status → Bool
is_accepted accepted = true
is_accepted _ = false

abbrev pub is_sent : Status → Bool
is_sent sent = true
is_sent _ = false

-- status IN ('failed', 'expired')
abbrev pub is_refundable : Status → Bool
is_refundable failed = true
is_refundable expired = true
is_refundable _ = false

-- status IN ('delivered', 'undelivered', 'failed', 'expired')
abbrev pub is_completed : Status → Bool
is_completed accepted = false
is_completed sent = false
is_completed _ = true

pub record Prices : Type 0 where
  pub normal_price : ℕ
  pub express_price : ℕ

unfoldable pub per_segment : Prices → MessageType → ℕ
per_segment p t = if is_express t then p.express_price else p.normal_price

-- The int64 product, which stays far from overflow at ten segments and configured prices.
unfoldable pub message_cost : Prices → MessageType → ℕ → ℕ
unfolding per_segment
message_cost p t segments = segments * per_segment p t
