-- ===== src/Billing/Apply.antt =====
-- ApplyRefunds as a whole: what the callers of billing rely on.
use sms_gateway.Common.{ℕ, ◌≡◌, ap, ◌∙◌, sym, false, List, [], All, All-imp}
use sms_gateway.Common.Int.{ℤ, pos, ◌+ℤ◌, int_laws}
use sms_gateway.Store.Tables.{debit, refund, Db, has_customer, has_message}
use sms_gateway.Store.Tx.{After, After-bind, After-imp}
use sms_gateway.Billing.{Refund, insert_refunds, sort_totals, credit_all, apply_refunds}
use sms_gateway.Billing.Refunds.{
  entry_sum, entry_sum-sort_totals, refunded, moved, first_refund, Inserted,
  insert_refunds-Inserted,
}
use sms_gateway.Billing.Credits.{Paid, credit_all-Paid}
use sms_gateway.Invariant.Sums.{sum_amounts, count_kind, amount_kind}

-- The effect of refunding `rs`: balances that equal the sums of transactions still do, and every
-- message's refunds move as by its first refund in the list.
pub record Refunded (rs : List Refund) (d d' : Db) : Type 0 where
  pub same_messages : d'.messages ≡ d.messages
  pub same_queue : d'.queue ≡ d.queue
  pub same_customer : (k : ℕ) → has_customer k d'.customers ≡ has_customer k d.customers
  pub balances :
      All (λ c. pos c.balance ≡ sum_amounts c.id d.transactions) d.customers
      → All (λ c. pos c.balance ≡ sum_amounts c.id d'.transactions) d'.customers
  pub debits :
      (i : ℕ)
      → (count_kind debit i d'.transactions ≡ count_kind debit i d.transactions)
        × (amount_kind debit i d'.transactions ≡ amount_kind debit i d.transactions)
  pub refunds :
      (i : ℕ) → refunded i d'.transactions ≡ moved (refunded i d.transactions) (first_refund i rs)
  pub no_message :
      (i : ℕ)
      → has_message i d.messages ≡ false
      → count_kind refund i d'.transactions ≡ count_kind refund i d.transactions
  pub no_customer :
      (k : ℕ)
      → has_customer k d.customers ≡ false
      → sum_amounts k d'.transactions ≡ sum_amounts k d.transactions

total_sum : (a b : ℤ) (m n : ℕ) → b +ℤ pos 0 ≡ a +ℤ pos n → m ≡ n → a +ℤ pos m ≡ b
total_sum a b m n h e = rw e (sym h ∙ omega int_laws)

Refunded-of :
    (rs : List Refund) (es : List (ℕ × ℕ)) (d d' d'' : Db)
    → Inserted rs [] d es d'
    → Paid
        (λ k. sum_amounts k d.transactions)
        (λ k. sum_amounts k d.transactions +ℤ pos (entry_sum k (sort_totals es)))
        d'
        d''
    → Refunded rs d d''
unfolding entry_sum
Refunded-of rs es d d' d'' h p = record {
  same_messages = p.same_messages ∙ h.same_messages;
  same_queue = p.same_queue ∙ h.same_queue;
  same_customer = λ k. p.same_customer k ∙ ap (has_customer k) h.same_customers;
  balances = λ b. rw p.same_transactions (
      All-imp _ _ d''.customers
        (λ c e. e ∙ total_sum _ _ _ _ (h.sums c.id) (entry_sum-sort_totals c.id es))
        (p.paid (rw h.same_customers b)));
  debits = λ i. rw p.same_transactions (h.debits i);
  refunds = λ i. rw p.same_transactions (h.refunds i);
  no_message = λ i e. rw p.same_transactions (h.no_message i e);
  no_customer = λ k e. rw p.same_transactions (h.no_customer k e);
}

-- Refunding a list of messages, if the database accepts it, keeps every balance equal to the sum of
-- its customer's transactions, refunds each listed message that had no refund once, with the amount
-- of its first entry, and adds no refund to any other message.
pub apply_refunds-Refunded :
    (now : ℕ) (new_id : ℕ → ℕ) (rs : List Refund) (d : Db)
    → After (λ _ d'. Refunded rs d d') (apply_refunds now new_id rs d)
unfolding apply_refunds
apply_refunds-Refunded now new_id rs d =
    After-bind (λ es d'. Inserted rs [] d es d') (λ _ d''. Refunded rs d d'')
      (insert_refunds now new_id 0 rs []) (λ es. credit_all now (sort_totals es)) d
      (insert_refunds-Inserted now new_id 0 rs [] d)
      λ es d' h.
        After-imp
          (λ _ d''.
            Paid (λ k. sum_amounts k d.transactions)
              (λ k. sum_amounts k d.transactions +ℤ pos (entry_sum k (sort_totals es))) d' d'')
          (λ _ d''. Refunded rs d d'') (credit_all now (sort_totals es) d')
          (λ _ d'' p. Refunded-of rs es d d' d'' h p)
          (credit_all-Paid now (sort_totals es) (λ k. sum_amounts k d.transactions) d')
