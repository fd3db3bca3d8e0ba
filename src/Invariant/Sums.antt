-- ===== src/Invariant/Sums.antt =====
-- The sums and counts of transactions that the invariant compares, and how an insertion moves them.
use sms_gateway.Common.{ℕ, suc, ◌&&◌, List, [], ◌∷◌, ◌==◌, if◌then◌else◌}
use sms_gateway.Common.Int.{ℤ, pos, ◌+ℤ◌}
use sms_gateway.Store.Tables.{Kind, Transaction, same_kind, is_id}

-- The sum of a customer's transactions.
unfoldable pub sum_amounts : ℕ → List Transaction → ℤ
sum_amounts k [] = pos 0
sum_amounts k (t ∷ ts) =
    let rest = sum_amounts k ts in if t.customer_id == k then t.amount +ℤ rest else rest

-- The transactions of a kind that refer to a message: their number and the sum of their amounts.
unfoldable pub count_kind : Kind → ℕ → List Transaction → ℕ
count_kind k i [] = 0
count_kind k i (t ∷ ts) =
    let rest = count_kind k i ts in
    if same_kind t.kind k && is_id t.message_id i then suc rest else rest

unfoldable pub amount_kind : Kind → ℕ → List Transaction → ℤ
amount_kind k i [] = pos 0
amount_kind k i (t ∷ ts) =
    let rest = amount_kind k i ts in
    if same_kind t.kind k && is_id t.message_id i then t.amount +ℤ rest else rest
