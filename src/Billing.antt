-- ===== src/Billing.antt =====
-- internal/billing/ledger.go: credit movements. Each function is the statement sequence of its Go
-- namesake, run inside the caller's transaction. `now` is the transaction's now(), and `new_id i` the
-- i-th value that `store.NewID` yields within the call.
pub mod Refunds
pub mod Credits
pub mod Apply
pub mod Charge
use sms_gateway.Common.{
  ℕ, suc, ◌+◌, ◌-◌, Bool, true, false, ◌&&◌, ◌||◌, not, Option, none, some, List, [], ◌∷◌, map, any,
  ltb, leb, ◌==◌, if◌then◌else◌, length,
}
use sms_gateway.Common.Int.{ℤ, pos, negsuc, neg}
use sms_gateway.Common.Text.{Text, text_eq}
use sms_gateway.Message.{Message}
use sms_gateway.Store.Tables.{
  Customer, Kind, charge, debit, refund, Transaction, Db, is_charge, same_kind, is_id, is_text,
  has_customer, has_message,
}
use sms_gateway.Store.Tx.{
  Error, unique_violation, foreign_key_violation, check_violation, out_of_range,
  insufficient_credits, charge_conflict, customer_not_found, Tx, Result, ok, err, ◌>>=◌, ◌>>◌, pure,
  throw, gets, modify, throw_if,
}

abbrev pub max_int64 : ℕ
max_int64 = 9223372036854775807

abbrev pub max_charge_amount : ℕ
max_charge_amount = 1000000000

pub record Debit : Type 0 where
  pub message_id : ℕ
  pub amount : ℕ

pub record Refund : Type 0 where
  pub customer_id : ℕ
  pub message_id : ℕ
  pub amount : ℕ

-- The unique index on (message_id, kind), and the primary key.
unfoldable pub has_kind : Kind → ℕ → List Transaction → Bool
has_kind k i = any (λ t. same_kind t.kind k && is_id t.message_id i)

unfoldable pub has_id : ℕ → List Transaction → Bool
has_id i = any (λ t. t.id == i)

unfoldable pub add_row : Transaction → Db → Db
add_row t d = record d { transactions = t ∷ d.transactions }

unfoldable pub debit_row : ℕ → ℕ → ℕ → Debit → Transaction
debit_row now id customer x = record {
  id = id;
  customer_id = customer;
  kind = debit;
  amount = neg x.amount;
  message_id = some x.message_id;
  client_ref = none;
  created_at = now;
}

-- One row of the INSERT of `RecordDebits`, with the constraints of the table.
unfoldable pub insert_debit : ℕ → ℕ → ℕ → Debit → Tx (Unit {0})
unfolding add_row debit_row
insert_debit now id customer x = do
  throw_if (x.amount == 0) check_violation
  throw_if (← gets (λ d. has_id id d.transactions)) unique_violation
  throw_if (← gets (λ d. has_kind debit x.message_id d.transactions)) unique_violation
  throw_if (← gets (λ d. not (has_customer customer d.customers))) foreign_key_violation
  throw_if (← gets (λ d. not (has_message x.message_id d.messages))) foreign_key_violation
  modify (add_row (debit_row now id customer x))

unfoldable pub insert_debits : ℕ → (ℕ → ℕ) → ℕ → ℕ → List Debit → Tx (Unit {0})
insert_debits now new_id customer i [] = pure tt
insert_debits now new_id customer i (x ∷ xs) = do
  insert_debit now (new_id i) customer x
  insert_debits now new_id customer (i + 1) xs

unfoldable pub record_debits : ℕ → (ℕ → ℕ) → ℕ → List Debit → Tx (Unit {0})
unfolding insert_debits
record_debits now new_id customer = insert_debits now new_id customer 0

unfoldable pub find_customer : ℕ → List Customer → Option Customer
find_customer i [] = none
find_customer i (c ∷ cs) = if c.id == i then some c else find_customer i cs

unfoldable pub balance_of : Option Customer → Tx ℕ
balance_of none = throw customer_not_found
balance_of (some c) = pure c.balance

unfoldable pub current_balance : ℕ → Tx ℕ
unfolding find_customer balance_of
current_balance customer = do balance_of (← gets (λ d. find_customer customer d.customers))

abbrev pub set_customers : (List Customer → List Customer) → Db → Db
set_customers f d = record d { customers = f d.customers }

-- SET balance = balance - amount WHERE id = customer AND balance >= amount
unfoldable pub debit_customer : ℕ → ℕ → ℕ → Customer → Customer
debit_customer now customer amount c =
    if c.id == customer && leb amount c.balance
    then record c { balance = c.balance - amount; updated_at = now }
    else c

unfoldable pub covers : ℕ → ℕ → List Customer → Bool
covers customer amount = any (λ c. c.id == customer && leb amount c.balance)

unfoldable pub debit_balance : ℕ → ℕ → ℕ → Tx ℕ
unfolding debit_customer current_balance
debit_balance now customer amount = do
  throw_if (← gets (λ d. not (covers customer amount d.customers))) insufficient_credits
  modify (set_customers (map (debit_customer now customer amount)))
  current_balance customer

-- SET balance = balance + amount WHERE id = customer
credit_customer : ℕ → ℕ → ℕ → Customer → Customer
credit_customer now customer amount c =
    if c.id == customer then record c { balance = c.balance + amount; updated_at = now } else c

overflows : ℕ → ℕ → List Customer → Bool
overflows customer amount = any (λ c. c.id == customer && ltb max_int64 (c.balance + amount))

unfoldable pub credit : ℕ → ℕ → ℕ → Tx (Unit {0})
unfolding overflows credit_customer
credit now customer amount = do
  throw_if (← gets (λ d. overflows customer amount d.customers)) out_of_range
  modify (set_customers (map (credit_customer now customer amount)))

pub record ChargeResult : Type 0 where
  pub transaction : Transaction
  pub new_balance : ℕ
  pub replayed : Bool

unfoldable pub charge_row : ℕ → ℕ → ℕ → ℕ → Text → Transaction
charge_row now id customer amount client_ref = record {
  id = id;
  customer_id = customer;
  kind = charge;
  amount = pos amount;
  message_id = none;
  client_ref = some client_ref;
  created_at = now;
}

-- WHERE customer_id = customer AND kind = 'charge' AND client_ref = ref
unfoldable pub find_charge : ℕ → Text → List Transaction → Option Transaction
find_charge customer client_ref [] = none
find_charge customer client_ref (t ∷ ts) =
    if t.customer_id == customer && is_charge t.kind && is_text t.client_ref client_ref
    then some t
    else find_charge customer client_ref ts

abbrev int_eq : ℤ → ℤ → Bool
int_eq (pos m) (pos n) = m == n
int_eq (pos m) (negsuc n) = false
int_eq (negsuc m) (pos n) = false
int_eq (negsuc m) (negsuc n) = m == n

unfoldable pub replay_charge : ℕ → ℕ → Transaction → Tx ChargeResult
replay_charge customer amount original = do
  throw_if (not (int_eq original.amount (pos amount))) charge_conflict
  balance ← current_balance customer
  pure (record { transaction = original; new_balance = balance; replayed = true })

unfoldable pub insert_charge : ℕ → (ℕ → ℕ) → ℕ → ℕ → Text → Tx ChargeResult
unfolding charge_row add_row
insert_charge now new_id customer amount client_ref = do
  throw_if (amount == 0) check_violation
  throw_if (← gets (λ d. has_id (new_id 0) d.transactions)) unique_violation
  throw_if (← gets (λ d. not (has_customer customer d.customers))) customer_not_found
  let t = charge_row now (new_id 0) customer amount client_ref
  modify (add_row t)
  credit now customer amount
  balance ← current_balance customer
  pure (record { transaction = t; new_balance = balance; replayed = false })

-- ON CONFLICT (customer_id, client_ref) WHERE kind = 'charge' DO NOTHING, after the CHECK of the amount
unfoldable pub charge_or_replay : ℕ → (ℕ → ℕ) → ℕ → ℕ → Text → Option Transaction → Tx ChargeResult
charge_or_replay now new_id customer amount client_ref none =
    insert_charge now new_id customer amount client_ref
charge_or_replay now new_id customer amount client_ref (some original) =
    throw_if (amount == 0) check_violation >> replay_charge customer amount original

-- `Charge`
unfoldable pub charge_credits : ℕ → (ℕ → ℕ) → ℕ → ℕ → Text → Tx ChargeResult
unfolding find_charge charge_or_replay
charge_credits now new_id customer amount client_ref = do
  charge_or_replay now new_id customer amount client_ref
      (← gets (λ d. find_charge customer client_ref d.transactions))

refund_row : ℕ → ℕ → Refund → Transaction
refund_row now id r = record {
  id = id;
  customer_id = r.customer_id;
  kind = refund;
  amount = pos r.amount;
  message_id = some r.message_id;
  client_ref = none;
  created_at = now;
}

-- The (id, customer_id, cost) rows that an UPDATE of messages returns, as refunds.
unfoldable pub refunds_where : (Message → Bool) → List Message → List Refund
refunds_where p [] = []
refunds_where p (m ∷ ms) =
    let rest = refunds_where p ms in
    if p m
    then record { customer_id = m.customer_id; message_id = m.id; amount = m.cost } ∷ rest
    else rest

-- A refund row refers to a customer and a message.
unfoldable pub unknown_refund : Refund → Db → Bool
unknown_refund r d =
    not (has_customer r.customer_id d.customers) || not (has_message r.message_id d.messages)

-- `totals[customerID] += amount`
unfoldable pub add_total : ℕ → ℕ → List (ℕ × ℕ) → List (ℕ × ℕ)
add_total customer amount [] = (customer, amount) ∷ []
add_total customer amount ((c, total) ∷ totals) =
    if c == customer
    then (c, total + amount) ∷ totals
    else (c, total) ∷ add_total customer amount totals

-- One row of the INSERT of `ApplyRefunds`, ON CONFLICT (message_id, kind) DO NOTHING; the rows that
-- the statement returns are summed into `totals`.
unfoldable pub insert_refund : ℕ → ℕ → Refund → List (ℕ × ℕ) → Tx (List (ℕ × ℕ))
unfolding refund_row add_row
insert_refund now id r totals = do
  throw_if (r.amount == 0) check_violation
  skip ← gets (λ d. has_kind refund r.message_id d.transactions)
  throw_if (← gets (λ d. not skip && has_id id d.transactions)) unique_violation
  throw_if (← gets (λ d. not skip && unknown_refund r d)) foreign_key_violation
  modify (λ d. if skip then d else add_row (refund_row now id r) d)
  pure (if skip then totals else add_total r.customer_id r.amount totals)

unfoldable pub insert_refunds : ℕ → (ℕ → ℕ) → ℕ → List Refund → List (ℕ × ℕ) → Tx (List (ℕ × ℕ))
insert_refunds now new_id i [] totals = pure totals
insert_refunds now new_id i (r ∷ rs) totals = do
  totals' ← insert_refund now (new_id i) r totals
  insert_refunds now new_id (i + 1) rs totals'

-- `sort.Slice(order, ...)`: the entries of `totals` in ascending customer order.
insert_sorted : ℕ × ℕ → List (ℕ × ℕ) → List (ℕ × ℕ)
insert_sorted e [] = e ∷ []
insert_sorted e (x ∷ xs) = if ltb x.0 e.0 then x ∷ insert_sorted e xs else e ∷ x ∷ xs

unfoldable pub sort_totals : List (ℕ × ℕ) → List (ℕ × ℕ)
unfolding insert_sorted
sort_totals [] = []
sort_totals (e ∷ es) = insert_sorted e (sort_totals es)

unfoldable pub credit_all : ℕ → List (ℕ × ℕ) → Tx (Unit {0})
credit_all now [] = pure tt
credit_all now ((customer, total) ∷ es) = do credit now customer total; credit_all now es

unfoldable pub apply_refunds : ℕ → (ℕ → ℕ) → List Refund → Tx (Unit {0})
apply_refunds now new_id refunds = do
  totals ← insert_refunds now new_id 0 refunds []
  credit_all now (sort_totals totals)
