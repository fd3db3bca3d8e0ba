-- ===== src/Invariant.antt =====
-- internal/invariant/invariant.go: the checks that hold at every commit. `Inv` states them, with the
-- structural facts that the schema's keys give; the two checks of how long rows may wait are left out.
pub mod Sums
pub mod Update
use sms_gateway.Common.{
  ℕ, ◌+◌, ◌≤◌, ◌≡◌, Bool, true, false, ◌&&◌, ◌||◌, not, Option, none, some, List, [], ◌∷◌, ltb,
  ◌==◌, if◌then◌else◌, All,
}
use sms_gateway.Common.Int.{ℤ, pos, neg}
use sms_gateway.Message.{Message, Status, is_accepted, is_sent, is_refundable, is_completed}
use sms_gateway.Store.Tables.{
  Customer, debit, refund, Transaction, QueueRow, Db, is_null, has_customer, has_message, queued,
}
use sms_gateway.Invariant.Sums.{sum_amounts, count_kind, amount_kind}

-- The two are given and the first is earlier.
abbrev pub earlier : Option ℕ → ℕ → Bool
earlier none t = false
earlier (some a) t = ltb a t

-- The condition of the query `timestamps_consistent`, under which a row is a violation.
unfoldable pub times_violated : Message → Bool
times_violated m =
    is_sent m.status && is_null m.sent_at
    || (is_completed m.status && is_null m.completed_at
        || (earlier m.sent_at m.accepted_at || earlier m.completed_at m.accepted_at))

-- A message agrees with its transactions and its queue row.
pub record Settled (txs : List Transaction) (queue : List QueueRow) (now : ℕ) (m : Message)
    : Type 0 where
  pub debit_once : count_kind debit m.id txs ≡ 1
  pub debit_cost : amount_kind debit m.id txs ≡ neg m.cost
  pub refund_due : count_kind refund m.id txs ≡ (if is_refundable m.status then 1 else 0)
  pub refund_cost :
      amount_kind refund m.id txs ≡ (if is_refundable m.status then pos m.cost else pos 0)
  pub waiting : is_accepted m.status ≡ true → queued m.id queue ≡ true
  pub unsent : is_accepted m.status ≡ true → m.sent_at ≡ none
  pub timely : times_violated m ≡ false
  pub past : m.accepted_at ≤ now
  pub costly : 1 ≤ m.cost

abbrev pub Distinct : List Message → Type 0
Distinct [] = Unit
Distinct (m ∷ ms) = (has_message m.id ms ≡ false) × Distinct ms

-- What holds of the tables once a transaction has committed at `now`.
pub record Inv (now : ℕ) (d : Db) : Type 0 where
  pub balanced : All (λ c. pos c.balance ≡ sum_amounts c.id d.transactions) d.customers
  pub settled : All (Settled d.transactions d.queue now) d.messages
  pub distinct : Distinct d.messages
  pub known_message :
      (i : ℕ)
      → has_message i d.messages ≡ false
      → (count_kind debit i d.transactions ≡ 0) × (count_kind refund i d.transactions ≡ 0)
  pub known_customer :
      (k : ℕ) → has_customer k d.customers ≡ false → sum_amounts k d.transactions ≡ pos 0
