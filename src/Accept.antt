-- ===== src/Accept.antt =====
-- internal/message/accept.go and lane.go: recording accepted messages with their debit and queue rows in
-- one transaction. `new_id i` is the id of the i-th message and `new_tx i` of its debit; `hash` is the
-- FNV-1a sum of a customer's id and `itoa` prints a number.
pub mod Owing
pub mod Rows
pub mod Keeps
pub mod Replay
pub mod Attempts
pub mod Validate
pub mod Settles
pub mod Submit
use sms_gateway.Common.{
  ℕ, ◌+◌, ◌%◌, Bool, true, false, ◌&&◌, ◌||◌, not, Option, none, some, List, [], ◌∷◌, ◌++◌, map,
  any, keep, ltb, ◌==◌, length, if◌then◌else◌,
}
use sms_gateway.Common.Text.{Text, codes, text_eq}
use sms_gateway.Segment.{Result}
use sms_gateway.Message.{Message, MessageType, Prices, accepted, is_express}
use sms_gateway.Store.Tables.{
  QueueRow, Db, is_text, whole_ms, null_text, has_customer, has_message, queued,
}
use sms_gateway.Store.Tx.{
  unique_violation, check_violation, customer_not_found, client_ref_taken, Tx, ok, err, ◌>>=◌, ◌>>◌,
  pure, gets, modify, throw_if,
}
use sms_gateway.Billing.{Debit, record_debits, debit_balance}

-- A validated and priced request; `ref` is empty for none.
pub record Item : Type 0 where
  pub recipient : Text
  pub text : Text
  pub message_type : MessageType
  pub ref : Text
  pub seg : Result
  pub cost : ℕ

pub record AcceptConfig : Type 0 where
  pub prices : Prices
  pub max_segments : ℕ
  pub normal_lanes : ℕ
  pub normal_ttl : ℕ
  pub express_ttl : ℕ

-- `Accepted`, of a submission that is no replay.
pub record Accepted : Type 0 where
  pub messages : List Message
  pub total_cost : ℕ

unfoldable pub ttl : AcceptConfig → MessageType → ℕ
ttl cfg t = if is_express t then cfg.express_ttl else cfg.normal_ttl

abbrev pub normal_lane : (ℕ → Text) → ℕ → Text
normal_lane itoa i = codes "normal-" ++ itoa i

-- `Lane`
unfoldable pub lane_of : (ℕ → ℕ) → (ℕ → Text) → MessageType → ℕ → ℕ → Text
lane_of hash itoa t customer lanes =
    if is_express t then codes "express" else normal_lane itoa (hash customer % lanes)

unfoldable pub accepted_row : ℕ → AcceptConfig → ℕ → ℕ → Item → Message
accepted_row now cfg customer id x = record {
  id = id;
  customer_id = customer;
  message_type = x.message_type;
  recipient = x.recipient;
  body = x.text;
  encoding = x.seg.encoding;
  segments = x.seg.segments;
  cost = x.cost;
  status = accepted;
  attempts = 0;
  provider = none;
  provider_ref = none;
  last_error = none;
  failure_reason = none;
  sla_breached = false;
  client_ref = null_text x.ref;
  accepted_at = now;
  expires_at = now + whole_ms (ttl cfg x.message_type);
  sent_at = none;
  completed_at = none;
  updated_at = now;
}

-- The constraint messages_customer_client_ref_key, under which NULLs are distinct.
abbrev pub has_ref : ℕ → Option Text → List Message → Bool
has_ref customer none ms = false
has_ref customer (some ref) ms = any (λ m. m.customer_id == customer && is_text m.client_ref ref) ms

-- The CHECK constraints on segments and cost.
abbrev pub refused : Item → Bool
refused x = x.cost == 0 || (x.seg.segments == 0 || ltb 10 x.seg.segments)

-- One row of the INSERT, and whether it was inserted.
unfoldable pub insert_message : ℕ → AcceptConfig → ℕ → ℕ → Item → Tx Bool
insert_message now cfg customer id x = do
  throw_if (refused x) check_violation
  skip ← gets (λ d. has_ref customer (null_text x.ref) d.messages)
  throw_if (← gets (λ d. not skip && has_message id d.messages)) unique_violation
  modify (λ d.
      if skip then d else record d { messages = accepted_row now cfg customer id x ∷ d.messages })
  pure (not skip)

-- The number of inserted rows.
unfoldable pub insert_messages : ℕ → AcceptConfig → ℕ → (ℕ → ℕ) → ℕ → List Item → Tx ℕ
insert_messages now cfg customer new_id i [] = pure 0
insert_messages now cfg customer new_id i (x ∷ xs) = do
  one ← insert_message now cfg customer (new_id i) x
  more ← insert_messages now cfg customer new_id (i + 1) xs
  pure ((if one then 1 else 0) + more)

unfoldable pub debits_of : (ℕ → ℕ) → ℕ → List Item → List Debit
debits_of new_id i [] = []
debits_of new_id i (x ∷ xs) =
    record { message_id = new_id i; amount = x.cost } ∷ debits_of new_id (i + 1) xs

unfoldable pub total_of : List Item → ℕ
total_of [] = 0
total_of (x ∷ xs) = x.cost + total_of xs

-- The rows of the queue INSERT for one message.
unfoldable pub queue_rows : ℕ → ℕ → Text → List Message → List QueueRow
queue_rows now id lane ms =
    map
      (λ m. record {
        message_id = m.id;
        lane = lane;
        next_attempt_at = now;
        lease_owner = none;
        lease_version = 0;
        expires_at = m.expires_at;
      })
      (keep (λ m. m.id == id) ms)

unfoldable pub enqueue : ℕ → (MessageType → Text) → (ℕ → ℕ) → ℕ → List Item → Tx (Unit {0})
enqueue now lane new_id i [] = pure tt
enqueue now lane new_id i (x ∷ xs) = do
  throw_if (← gets (λ d. queued (new_id i) d.queue)) unique_violation
  modify (λ d. record d {
    queue = queue_rows now (new_id i) (lane x.message_type) d.messages ++ d.queue;
  })
  enqueue now lane new_id (i + 1) xs

-- `byID[id]` for each id, in request order.
unfoldable pub in_order : (ℕ → ℕ) → ℕ → List Item → List Message → List Message
in_order new_id i [] ms = []
in_order new_id i (x ∷ xs) ms = keep (λ m. m.id == new_id i) ms ++ in_order new_id (i + 1) xs ms

-- The statements of `insert` from the queue INSERT on.
unfoldable pub finish : ℕ → (MessageType → Text) → (ℕ → ℕ) → ℕ → List Item → Tx Accepted
finish now lane new_id customer items = do
  enqueue now lane new_id 0 items
  balance ← debit_balance now customer (total_of items)
  gets (λ d. record { messages = in_order new_id 0 items d.messages; total_cost = total_of items })

-- `insert`
unfoldable pub insert :
    ℕ → AcceptConfig → (ℕ → ℕ) → (ℕ → Text) → (ℕ → ℕ) → (ℕ → ℕ) → ℕ → List Item → Tx Accepted
insert now cfg hash itoa new_id new_tx customer items = do
  inserted ← insert_messages now cfg customer new_id 0 items
  throw_if (← gets (λ d. ltb 0 inserted && not (has_customer customer d.customers)))
      customer_not_found
  throw_if (ltb inserted (length items)) client_ref_taken
  record_debits now new_tx customer (debits_of new_id 0 items)
  finish now (λ t. lane_of hash itoa t customer cfg.normal_lanes) new_id customer items
