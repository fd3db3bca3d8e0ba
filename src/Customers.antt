-- ===== src/Customers.antt =====
-- internal/customer/customer.go: creating, changing and deleting customers. A key and its hash are
-- arguments: `key` is what auth.GenerateKey returned and `hash_key` is auth.HashKey. `client_ref` is
-- AdminChargeRef's value. A number of credits that is not positive is 0.
pub mod Keeps
pub mod Delete
use sms_gateway.Common.{
  ℕ, ◌+◌, ◌≤◌, Bool, true, false, ◌&&◌, ◌||◌, not, Option, none, some, List, [], ◌∷◌, map, keep,
  any, take, ltb, leb, length, ◌==◌, if◌then◌else◌,
}
use sms_gateway.Common.Text.{Text, text_eq}
use sms_gateway.Message.{Message}
use sms_gateway.Store.Tables.{Customer, Transaction, QueueRow, Db, has_customer, is_id}
use sms_gateway.Store.Tx.{
  unique_violation, check_violation, customer_not_found, Tx, Result, ok, err, ◌>>=◌, ◌>>◌, pure,
  throw, gets, modify, throw_if,
}
use sms_gateway.Billing.{ChargeResult, charge_credits, find_customer}

abbrev pub display_prefix_length : ℕ
display_prefix_length = 12

-- `auth.DisplayPrefix`, of an ASCII key
unfoldable pub display_prefix : Text → Text
display_prefix key =
    if ltb (length key) display_prefix_length then key else take display_prefix_length key

-- The CHECK constraints of the table.
abbrev pub bad_name : Text → Bool
bad_name name = not (leb 1 (length name) && leb (length name) 100)

abbrev pub bad_rate : ℕ → Bool
bad_rate rps = not (leb 1 rps && leb rps 100000)

unfoldable pub has_hash : Text → List Customer → Bool
has_hash hash = any (λ c. text_eq c.api_key_hash hash)

pub record New : Type 0 where
  pub name : Text
  pub initial_credits : ℕ
  pub rate_limit_rps : ℕ

abbrev pub customer_row : ℕ → ℕ → New → Text → Text → Customer
customer_row now id n hash prefix = record {
  id = id;
  name = n.name;
  api_key_hash = hash;
  api_key_prefix = prefix;
  balance = 0;
  rate_limit_rps = n.rate_limit_rps;
  created_at = now;
  updated_at = now;
}

unfoldable pub insert_customer : Customer → Tx (Unit {0})
insert_customer c = do
  throw_if (bad_name c.name || bad_rate c.rate_limit_rps) check_violation
  throw_if (← gets (λ d. has_customer c.id d.customers)) unique_violation
  throw_if (← gets (λ d. has_hash c.api_key_hash d.customers)) unique_violation
  modify (λ d. record d { customers = c ∷ d.customers })

-- if n.InitialCredits > 0
unfoldable pub charge_initial : ℕ → (ℕ → ℕ) → Customer → ℕ → Text → Tx Customer
charge_initial now new_tx c credits client_ref =
    if credits == 0
    then pure c
    else charge_credits now new_tx c.id credits client_ref >>= λ res.
        pure (record c { balance = res.new_balance })

-- `Create`, run in `with_tx`
unfoldable pub create : ℕ → ℕ → (ℕ → ℕ) → (Text → Text) → Text → Text → New → Tx Customer
create now id new_tx hash_key key client_ref n = do
  let c = customer_row now id n (hash_key key) (display_prefix key)
  insert_customer c
  charge_initial now new_tx c n.initial_credits client_ref

-- COALESCE($n, column)
abbrev pub or_old {ℓ} : {A : Type ℓ} → Option A → A → A
or_old none old = old
or_old (some a) old = a

unfoldable pub update_row : ℕ → ℕ → Option Text → Option ℕ → Customer → Customer
update_row now id name rps c =
    if c.id == id
    then record c {
      name = or_old name c.name;
      rate_limit_rps = or_old rps c.rate_limit_rps;
      updated_at = now;
    }
    else c

abbrev pub is_bad {ℓ} : {A : Type ℓ} → (A → Bool) → Option A → Bool
is_bad bad none = false
is_bad bad (some a) = bad a

-- The row that RETURNING yields, or ErrNotFound.
abbrev pub returned : Option Customer → Tx Customer
returned none = throw customer_not_found
returned (some c) = pure c

-- `Update`
unfoldable pub update : ℕ → ℕ → Option Text → Option ℕ → Tx Customer
update now id name rps = do
  throw_if
      (← gets (λ d. has_customer id d.customers && (is_bad bad_name name || is_bad bad_rate rps)))
      check_violation
  modify (λ d. record d { customers = map (update_row now id name rps) d.customers })
  returned (← gets (λ d. find_customer id d.customers))

unfoldable pub rotate_row : ℕ → ℕ → Text → Text → Customer → Customer
rotate_row now id hash prefix c =
    if c.id == id
    then record c { api_key_hash = hash; api_key_prefix = prefix; updated_at = now }
    else c

-- The hash of another customer.
unfoldable pub hash_taken : ℕ → Text → List Customer → Bool
hash_taken id hash = any (λ c. not (c.id == id) && text_eq c.api_key_hash hash)

-- `RotateKey`
unfoldable pub rotate_key : ℕ → ℕ → (Text → Text) → Text → Tx Customer
rotate_key now id hash_key key = do
  throw_if (← gets (λ d. has_customer id d.customers && hash_taken id (hash_key key) d.customers))
      unique_violation
  modify (λ d. record d {
    customers = map (rotate_row now id (hash_key key) (display_prefix key)) d.customers;
  })
  returned (← gets (λ d. find_customer id d.customers))

-- A message of the customer that has the id.
unfoldable pub owns_message : ℕ → ℕ → List Message → Bool
owns_message customer i = any (λ m. m.id == i && m.customer_id == customer)

abbrev refers_to_owned : ℕ → List Message → Option ℕ → Bool
refers_to_owned customer ms none = false
refers_to_owned customer ms (some i) = owns_message customer i ms

-- The rows that ON DELETE CASCADE leaves.
unfoldable pub stays : ℕ → List Message → Transaction → Bool
stays customer ms t =
    not (t.customer_id == customer) && not (refers_to_owned customer ms t.message_id)

unfoldable pub cascade : ℕ → Db → Db
unfolding stays owns_message
cascade customer d = record {
  customers = keep (λ c. not (c.id == customer)) d.customers;
  messages = keep (λ m. not (m.customer_id == customer)) d.messages;
  transactions = keep (stays customer d.messages) d.transactions;
  queue = keep (λ q. not (owns_message customer q.message_id d.messages)) d.queue;
}

-- `Delete`
unfoldable pub delete : ℕ → Tx (Unit {0})
unfolding cascade
delete customer = do
  throw_if (← gets (λ d. not (has_customer customer d.customers))) customer_not_found
  modify (cascade customer)
