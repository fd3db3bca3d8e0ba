-- ===== src/Queries.antt =====
-- The read-only queries: messages (internal/message/query.go, admin.go and report.go), transactions and
-- balances (internal/billing/query.go), and customers (internal/customer/customer.go).
pub mod Messages
pub mod Accounts
pub mod Pages
pub mod Summary
use sms_gateway.Common.{ℕ, Bool, true, Option, none, some, List, [], ◌∷◌}
use sms_gateway.Common.Text.{Text, text_eq}

-- What `pgx.CollectExactlyOneRow` makes of the rows; `no_row` becomes the query's not-found error.
pub data Found (A : Type 0) : Type 0 where
  row : A → Found A
  no_row too_many : Found A

unfoldable pub exactly_one : {A : Type 0} → List A → Found A
exactly_one [] = no_row
exactly_one (x ∷ []) = row x
exactly_one (x ∷ y ∷ rest) = too_many

-- ($n IS NULL OR column = $n)
abbrev pub matches {ℓ} : {A : Type ℓ} → (A → A → Bool) → Option A → A → Bool
matches same none v = true
matches same (some a) v = same a v
