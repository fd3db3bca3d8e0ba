-- ===== src/Billing/Refunds.antt =====
-- ApplyRefunds: the rows that it inserts and the balances that it credits.
use sms_gateway.Common.{
  ℕ, ◌+◌, ◌≡◌, refl, ap, ◌∙◌, true, false, ◌&&◌, not, Option, none, some, List, [], ◌∷◌, ◌==◌,
  if◌then◌else◌, arith, Bool-cases, Option-cases, inl, inr,
}
use sms_gateway.Common.Int.{ℤ, pos, pos_part, neg_part, ◌+ℤ◌, int_laws}
use sms_gateway.Store.Tables.{Kind, debit, refund, Transaction, Db, has_customer, has_message}
use sms_gateway.Store.Tx.{After, After-bind, After-imp, After-throw_if}
use sms_gateway.Billing.{
  Refund, has_kind, has_id, unknown_refund, add_total, insert_refunds, sort_totals, insert_refund,
  refund_row, insert_sorted, add_row,
}
use sms_gateway.Invariant.Sums.{sum_amounts, count_kind, amount_kind}

-- The sum of a customer's entries.
unfoldable pub entry_sum : ℕ → List (ℕ × ℕ) → ℕ
entry_sum k [] = 0
entry_sum k ((c, total) ∷ es) = let rest = entry_sum k es in if c == k then total + rest else rest

entry_sum-add_total :
    (k c x : ℕ) (es : List (ℕ × ℕ))
    → entry_sum k (add_total c x es) ≡ entry_sum k es + (if c == k then x else 0)
unfolding entry_sum add_total
entry_sum-add_total k c x [] = ground arith
entry_sum-add_total k c x ((c', total) ∷ es) = ground (arith, entry_sum-add_total k c x es)

entry_sum-insert_sorted :
    (k : ℕ) (e : ℕ × ℕ) (es : List (ℕ × ℕ))
    → entry_sum k (insert_sorted e es) ≡ entry_sum k (e ∷ es)
unfolding entry_sum insert_sorted
entry_sum-insert_sorted k (c, x) [] = refl
entry_sum-insert_sorted k (c, x) ((c', y) ∷ es) =
    ground (arith, entry_sum-insert_sorted k (c, x) es)

pub entry_sum-sort_totals :
    (k : ℕ) (es : List (ℕ × ℕ)) → entry_sum k (sort_totals es) ≡ entry_sum k es
unfolding entry_sum sort_totals
entry_sum-sort_totals k [] = refl
entry_sum-sort_totals k ((c, x) ∷ es) =
    entry_sum-insert_sorted k (c, x) (sort_totals es) ∙ ground (arith, entry_sum-sort_totals k es)

-- The amount of the first refund of a message.
unfoldable pub first_refund : ℕ → List Refund → Option ℕ
first_refund i [] = none
first_refund i (r ∷ rs) = if r.message_id == i then some r.amount else first_refund i rs

-- The number and the sum of a message's refunds, and how the insertion of a first one moves them.
abbrev pub refunded : ℕ → List Transaction → ℕ × ℤ
refunded i txs = (count_kind refund i txs, amount_kind refund i txs)

abbrev pub moved : ℕ × ℤ → Option ℕ → ℕ × ℤ
moved (n, a) none = (n, a)
moved (n, a) (some x) = if n == 0 then (1, pos x +ℤ a) else (n, a)

has_kind-count :
    (k : Kind) (i : ℕ) (txs : List Transaction) → has_kind k i txs ≡ not (count_kind k i txs == 0)
unfolding has_kind count_kind
has_kind-count k i [] = refl
has_kind-count k i (t ∷ txs) = ground (arith, has_kind-count k i txs)

add_swap : (a : ℤ) (x n : ℕ) → pos x +ℤ a +ℤ pos n ≡ a +ℤ pos (n + x)
add_swap a x n = omega int_laws

pub record Inserted (rs : List Refund) (es : List (ℕ × ℕ)) (d : Db) (es' : List (ℕ × ℕ)) (d' : Db)
    : Type 0 where
  pub same_customers : d'.customers ≡ d.customers
  pub same_messages : d'.messages ≡ d.messages
  pub same_queue : d'.queue ≡ d.queue
  pub sums :
      (k : ℕ)
      → sum_amounts k d'.transactions +ℤ pos (entry_sum k es)
        ≡ sum_amounts k d.transactions +ℤ pos (entry_sum k es')
  pub debits :
      (i : ℕ)
      → (count_kind debit i d'.transactions ≡ count_kind debit i d.transactions)
        × (amount_kind debit i d'.transactions ≡ amount_kind debit i d.transactions)
  pub refunds :
      (i : ℕ) → refunded i d'.transactions ≡ moved (refunded i d.transactions) (first_refund i rs)
  pub no_message :
      (i : ℕ)
      → has_message i d.messages ≡ false
      → count_kind refund i d'.transactions ≡ count_kind refund i d.transactions
  pub no_customer :
      (k : ℕ)
      → has_customer k d.customers ≡ false
      → sum_amounts k d'.transactions ≡ sum_amounts k d.transactions

kept-Inserted :
    (r : Refund) (es : List (ℕ × ℕ)) (d : Db)
    → has_kind refund r.message_id d.transactions ≡ true
    → Inserted (r ∷ []) es d es d
unfolding first_refund
kept-Inserted r es d h = record {
  same_customers = refl;
  same_messages = refl;
  same_queue = refl;
  sums = λ k. refl;
  debits = λ i. (refl, refl);
  refunds = λ i. ground (arith, h, has_kind-count refund r.message_id d.transactions);
  no_message = λ i e. refl;
  no_customer = λ k e. refl;
}

added-Inserted :
    (now id : ℕ) (r : Refund) (es : List (ℕ × ℕ)) (d : Db)
    → has_kind refund r.message_id d.transactions ≡ false
    → unknown_refund r d ≡ false
    → Inserted (r ∷ []) es d (add_total r.customer_id r.amount es) (add_row (refund_row now id r) d)
unfolding first_refund add_row refund_row unknown_refund sum_amounts count_kind amount_kind
added-Inserted now id r es d h known = record {
  same_customers = refl;
  same_messages = refl;
  same_queue = refl;
  sums = λ k. ground (
    arith,
    entry_sum-add_total k r.customer_id r.amount es,
    add_swap (sum_amounts k d.transactions) r.amount (entry_sum k es),
  );
  debits = λ i. (refl, refl);
  refunds = λ i. ground (arith, h, has_kind-count refund r.message_id d.transactions);
  no_message = λ i e. ground arith;
  no_customer = λ k e. ground arith;
}

insert_refund-Inserted :
    (now id : ℕ) (r : Refund) (es : List (ℕ × ℕ)) (d : Db)
    → After (λ es' d'. Inserted (r ∷ []) es d es' d') (insert_refund now id r es d)
unfolding insert_refund
insert_refund-Inserted now id r es d =
    let Q : List (ℕ × ℕ) → Db → Type 0 = λ es' d'. Inserted (r ∷ []) es d es' d' in
    let skip = has_kind refund r.message_id d.transactions in
    After-throw_if Q (r.amount == 0) _ _ d λ costly.
      After-throw_if Q (not skip && has_id id d.transactions) _ _ d λ fresh.
        After-throw_if Q (not skip && unknown_refund r d) _ _ d λ known. elim (Bool-cases skip) [
          | inl old ↦ rw old (kept-Inserted r es d old)
          | inr new ↦ rw new (added-Inserted now id r es d new (ground arith))
        ]

Inserted-refl : (es : List (ℕ × ℕ)) (d : Db) → Inserted [] es d es d
unfolding first_refund
Inserted-refl es d = record {
  same_customers = refl;
  same_messages = refl;
  same_queue = refl;
  sums = λ k. refl;
  debits = λ i. (refl, refl);
  refunds = λ i. refl;
  no_message = λ i e. refl;
  no_customer = λ k e. refl;
}

sums_trans :
    (a b c : ℤ) (m n p : ℕ)
    → b +ℤ pos m ≡ a +ℤ pos n
    → c +ℤ pos n ≡ b +ℤ pos p
    → c +ℤ pos m ≡ a +ℤ pos p
sums_trans a b c m n p h k =
    omega (int_laws, ap pos_part h, ap neg_part h, ap pos_part k, ap neg_part k)

moved_trans :
    (r : Refund) (rs : List Refund) (i : ℕ) (a : ℕ × ℤ)
    → moved (moved a (first_refund i (r ∷ []))) (first_refund i rs)
      ≡ moved a (first_refund i (r ∷ rs))
unfolding first_refund
moved_trans r rs i (n, a) = elim (Option-cases (first_refund i rs)) [
  | inl e ↦ rw e (ground (arith, e))
  | inr (x, e) ↦ rw e (ground (arith, e))
]

Inserted-trans :
    (r : Refund) (rs : List Refund) (es es' es'' : List (ℕ × ℕ)) (d d' d'' : Db)
    → Inserted (r ∷ []) es d es' d'
    → Inserted rs es' d' es'' d''
    → Inserted (r ∷ rs) es d es'' d''
Inserted-trans r rs es es' es'' d d' d'' h k = record {
  same_customers = k.same_customers ∙ h.same_customers;
  same_messages = k.same_messages ∙ h.same_messages;
  same_queue = k.same_queue ∙ h.same_queue;
  sums = λ i. sums_trans _ _ _ _ _ _ (h.sums i) (k.sums i);
  debits = λ i. ((k.debits i).0 ∙ (h.debits i).0, (k.debits i).1 ∙ (h.debits i).1);
  refunds = λ i.
      k.refunds i
      ∙ ap (λ a. moved a (first_refund i rs)) (h.refunds i)
      ∙ moved_trans r rs i (refunded i d.transactions);
  no_message = λ i e. k.no_message i (ap (has_message i) h.same_messages ∙ e) ∙ h.no_message i e;
  no_customer =
      λ i e. k.no_customer i (ap (has_customer i) h.same_customers ∙ e) ∙ h.no_customer i e;
}

pub insert_refunds-Inserted :
    (now : ℕ) (new_id : ℕ → ℕ) (i : ℕ) (rs : List Refund) (es : List (ℕ × ℕ)) (d : Db)
    → After (λ es' d'. Inserted rs es d es' d') (insert_refunds now new_id i rs es d)
unfolding insert_refunds
insert_refunds-Inserted now new_id i [] es d = Inserted-refl es d
insert_refunds-Inserted now new_id i (r ∷ rs) es d =
    After-bind (λ es' d'. Inserted (r ∷ []) es d es' d')
      (λ es'' d''. Inserted (r ∷ rs) es d es'' d'') (insert_refund now (new_id i) r es)
      (insert_refunds now new_id (i + 1) rs) d (insert_refund-Inserted now (new_id i) r es d)
      λ es' d' h.
        After-imp (λ es'' d''. Inserted rs es' d' es'' d'')
          (λ es'' d''. Inserted (r ∷ rs) es d es'' d'')
          (insert_refunds now new_id (i + 1) rs es' d')
          (λ es'' d'' k. Inserted-trans r rs es es' es'' d d' d'' h k)
          (insert_refunds-Inserted now new_id (i + 1) rs es' d')
