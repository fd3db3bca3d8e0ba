-- ===== src/Store/Tables.antt =====
-- The tables of migrations/00001_init.sql that the modelled statements use. A
-- table is the list of its rows, the latest insertion first. A UUID is the number that its bytes
-- spell, which `compareIDs` and SQL order as the bytes; times are in nanoseconds.
use sms_gateway.Common.{
  ◌∷◌, [], ℕ, ◌*◌, ◌/◌, Bool, true, false, Option, none, some, List, any, keep, not, ◌==◌,
}
use sms_gateway.Common.Int.{ℤ}
use sms_gateway.Common.Text.{Text, text_eq}
use sms_gateway.Message.{Message}

pub record Customer : Type 0 where
  pub id : ℕ
  pub name : Text
  pub api_key_hash : Text
  pub api_key_prefix : Text
  pub balance : ℕ
  pub rate_limit_rps : ℕ
  pub created_at : ℕ
  pub updated_at : ℕ

pub data Kind : Type 0 where
  charge debit refund : Kind

-- A row of the table `transactions`.
pub record Transaction : Type 0 where
  pub id : ℕ
  pub customer_id : ℕ
  pub kind : Kind
  pub amount : ℤ
  pub message_id : Option ℕ
  pub client_ref : Option Text
  pub created_at : ℕ

pub record QueueRow : Type 0 where
  pub message_id : ℕ
  pub lane : Text
  pub next_attempt_at : ℕ
  pub lease_owner : Option Text
  pub lease_version : ℕ
  pub expires_at : ℕ

pub record Db : Type 0 where
  pub customers : List Customer
  pub messages : List Message
  pub transactions : List Transaction
  pub queue : List QueueRow

abbrev pub is_charge : Kind → Bool
is_charge charge = true
is_charge _ = false

abbrev pub same_kind : Kind → Kind → Bool
same_kind charge charge = true
same_kind debit debit = true
same_kind refund refund = true
same_kind _ _ = false

-- column = value, where the column may be NULL
abbrev pub is_id : Option ℕ → ℕ → Bool
is_id none i = false
is_id (some j) i = j == i

abbrev pub is_text : Option Text → Text → Bool
is_text none s = false
is_text (some t) s = text_eq t s

abbrev pub is_null {ℓ} : {A : Type ℓ} → Option A → Bool
is_null none = true
is_null (some a) = false

-- COALESCE(column, value)
abbrev pub coalesce {ℓ} : {A : Type ℓ} → Option A → Option A → Option A
coalesce none b = b
coalesce (some a) b = some a

-- `d.Milliseconds()` as it is read back by `$n * interval '1 millisecond'`.
abbrev pub whole_ms : ℕ → ℕ
whole_ms d = d / 1000000 * 1000000

unfoldable pub has_customer : ℕ → List Customer → Bool
has_customer i = any (λ c. c.id == i)

unfoldable pub has_message : ℕ → List Message → Bool
has_message i = any (λ m. m.id == i)

unfoldable pub queued : ℕ → List QueueRow → Bool
queued i = any (λ q. q.message_id == i)

-- id = ANY(ids)
unfoldable pub mem_id : ℕ → List ℕ → Bool
mem_id i = any (λ j. j == i)

-- DELETE FROM queue WHERE message_id = ANY(ids)
unfoldable pub delete_ids : List ℕ → List QueueRow → List QueueRow
unfolding mem_id
delete_ids ids = keep (λ q. not (mem_id q.message_id ids))

-- `store.NullString`
abbrev pub null_text : Text → Option Text
null_text [] = none
null_text (c ∷ s) = some (c ∷ s)
