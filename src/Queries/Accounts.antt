-- ===== src/Queries/Accounts.antt =====
-- Queries on balances, transactions and customers.
use sms_gateway.Common.{
  ℕ, Bool, true, ◌&&◌, Option, none, some, List, [], ◌∷◌, keep, ◌==◌, if◌then◌else◌, leb,
}
use sms_gateway.Common.Text.{Text, text_eq}
use sms_gateway.Store.Tables.{Customer, Kind, Transaction, Db, same_kind}
use sms_gateway.Store.Ids.{null_lower_bound, not_below, below}
use sms_gateway.Paging.{page_of}
use sms_gateway.Queries.{Found, exactly_one, matches}

pub record Balance : Type 0 where
  pub amount : ℕ
  pub updated_at : ℕ

-- SELECT balance, updated_at; QueryRow takes the first row.
unfoldable pub balance_row : List Customer → Option Balance
balance_row [] = none
balance_row (c ∷ cs) = some (record { amount = c.balance; updated_at = c.updated_at })

-- `GetBalance`; `none` is ErrCustomerNotFound.
unfoldable pub get_balance : ℕ → Db → Option Balance
unfolding balance_row
get_balance customer d = balance_row (keep (λ c. c.id == customer) d.customers)

pub record TransactionFilter : Type 0 where
  pub kind : Option Kind
  pub since : Option ℕ
  pub until : Option ℕ
  pub after : ℕ
  pub limit : ℕ

unfoldable pub selects_transaction : ℕ → TransactionFilter → Transaction → Bool
selects_transaction customer f t =
    t.customer_id == customer
    && (matches (λ a b. same_kind b a) f.kind t.kind
        && (not_below (null_lower_bound f.since) t.id && below (null_lower_bound f.until) t.id))

-- `ListTransactions`
unfoldable pub list_transactions : ℕ → TransactionFilter → Db → List Transaction × Bool
list_transactions customer f d =
    page_of (λ t. t.id) (selects_transaction customer f) f.after f.limit d.transactions

-- `customer.Get`
unfoldable pub get_customer : ℕ → Db → Found Customer
get_customer id d = exactly_one (keep (λ c. c.id == id) d.customers)

abbrev oldest_of : Customer → Option Customer → Customer
oldest_of c none = c
oldest_of c (some b) = if leb c.id b.id then c else b

-- ORDER BY id LIMIT 1
unfoldable pub oldest : List Customer → Option Customer
oldest [] = none
oldest (c ∷ cs) = some (oldest_of c (oldest cs))

abbrev as_rows : Option Customer → List Customer
as_rows none = []
as_rows (some c) = c ∷ []

-- `FindByName`
unfoldable pub find_by_name : Text → Db → Found Customer
find_by_name name d = exactly_one (as_rows (oldest (keep (λ c. text_eq c.name name) d.customers)))

-- `customer.List`
unfoldable pub list_customers : ℕ → ℕ → Db → List Customer × Bool
list_customers after limit d = page_of (λ c. c.id) (λ c. true) after limit d.customers
