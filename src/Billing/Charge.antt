-- ===== src/Billing/Charge.antt =====
-- Charge: credits that a customer buys.
use sms_gateway.Common.{
  ℕ, ◌≤◌, ◌≡◌, sym, ap, subst, ◌∙◌, true, false, not, Option, none, some, List, ◌∷◌, ◌==◌, arith,
  All-imp, Bool-cases, inl, inr,
}
use sms_gateway.Common.Int.{ℤ, pos, ◌+ℤ◌, int_laws}
use sms_gateway.Common.Text.{Text}
use sms_gateway.Store.Tables.{Transaction, Db, has_customer}
use sms_gateway.Store.Tx.{with_tx, with_tx_lem, After, After-bind, After-throw_if}
use sms_gateway.Billing.{
  add_row, charge_row, credit, current_balance, has_id, int_eq, insert_charge, replay_charge,
  charge_or_replay, find_charge, charge_credits, ChargeResult,
}
use sms_gateway.Billing.Credits.{Paid, plus_at, credit-Paid, current_balance_same}
use sms_gateway.Invariant.{Settled, Inv}
use sms_gateway.Invariant.Sums.{sum_amounts, count_kind, amount_kind}
use sms_gateway.Invariant.Update.{Inv-later}

add_swap : (a : ℤ) (x : ℕ) → a +ℤ pos x ≡ pos x +ℤ a
add_swap a x = omega int_laws

add_none : (a : ℤ) → a +ℤ pos 0 ≡ a
add_none a = omega int_laws

charge_sum :
    (now id k x : ℕ) (ref : Text) (txs : List Transaction) (j : ℕ)
    → plus_at k x (λ i. sum_amounts i txs) j ≡ sum_amounts j (charge_row now id k x ref ∷ txs)
unfolding sum_amounts charge_row
charge_sum now id k x ref txs j = elim (Bool-cases (k == j)) [
  | inl e ↦ rw e (add_swap (sum_amounts j txs) x)
  | inr e ↦ rw e (add_none (sum_amounts j txs))
]

-- The tables once the charge is recorded and credited.
charged-Inv :
    (now k x id : ℕ) (ref : Text) (d d' : Db)
    → Inv now d
    → has_customer k d.customers ≡ true
    → Paid
        (λ i. sum_amounts i d.transactions)
        (plus_at k x (λ i. sum_amounts i d.transactions))
        (record d { transactions = charge_row now id k x ref ∷ d.transactions })
        d'
    → Inv now d'
unfolding count_kind amount_kind charge_row
charged-Inv now k x id ref d d' v known p = record {
  balanced = rw p.same_transactions (
      All-imp _ _ d'.customers (λ c e. e ∙ charge_sum now id k x ref d.transactions c.id)
        (p.paid v.balanced));
  settled =
      rw (p.same_messages, p.same_transactions, p.same_queue)
        (All-imp (Settled d.transactions d.queue now) _ d.messages
          (λ m s. record {
            debit_once = s.debit_once;
            debit_cost = s.debit_cost;
            refund_due = s.refund_due;
            refund_cost = s.refund_cost;
            waiting = s.waiting;
            unsent = s.unsent;
            timely = s.timely;
            past = s.past;
            costly = s.costly;
          })
          v.settled);
  distinct = rw p.same_messages v.distinct;
  known_message = rw (p.same_messages, p.same_transactions) (λ i e. v.known_message i e);
  known_customer = λ j absent.
      let absent' : has_customer j d.customers ≡ false = sym (p.same_customer j) ∙ absent in
      let other : (k == j) ≡ false =
        ground (arith, absent', known, ap (λ i. has_customer i d.customers) {x = k} {y = j}) in
      rw p.same_transactions (
        sym (charge_sum now id k x ref d.transactions j)
        ∙ rw other (add_none (sum_amounts j d.transactions) ∙ v.known_customer j absent'));
}

charge_run :
    (now : ℕ) (new_id : ℕ → ℕ) (k x : ℕ) (ref : Text) (o : Option Transaction) (d : Db)
    → Inv now d
    → After (λ _ d'. Inv now d') (charge_or_replay now new_id k x ref o d)
unfolding charge_or_replay insert_charge replay_charge add_row
charge_run now new_id k x ref (some t) d v =
    let Q : ChargeResult → Db → Type 0 = λ _ d'. Inv now d' in
    After-throw_if Q (x == 0) _ _ d λ _. After-throw_if Q (not (int_eq t.amount (pos x))) _ _ d λ _.
      After-bind (λ _ d'. d' ≡ d) Q (current_balance k) _ d (current_balance_same k d)
        λ _ d' e. subst (Inv now) (sym e) v
charge_run now new_id k x ref none d v =
    let Q : ChargeResult → Db → Type 0 = λ _ d'. Inv now d' in
    let t = charge_row now (new_id 0) k x ref in
    let d₁ : Db = record d { transactions = t ∷ d.transactions } in
    After-throw_if Q (x == 0) _ _ d λ _.
      After-throw_if Q (has_id (new_id 0) d.transactions) _ _ d λ _.
        After-throw_if Q (not (has_customer k d.customers)) _ _ d λ known.
          After-bind
            (λ _ d'.
              Paid (λ i. sum_amounts i d.transactions)
                (plus_at k x (λ i. sum_amounts i d.transactions)) d₁ d')
            Q (credit now k x) _ d₁ (credit-Paid now k x (λ i. sum_amounts i d.transactions) d₁)
            λ _ d₂ p.
              After-bind (λ _ d'. d' ≡ d₂) Q (current_balance k) _ d₂ (current_balance_same k d₂)
                λ _ d₃ e.
                  subst (Inv now) (sym e)
                    (charged-Inv now k x (new_id 0) ref d d₂ v (ground (arith, known)) p)

pub charge_credits-After :
    (now : ℕ) (new_id : ℕ → ℕ) (k x : ℕ) (ref : Text) (d : Db)
    → Inv now d
    → After (λ _ d'. Inv now d') (charge_credits now new_id k x ref d)
unfolding charge_credits
charge_credits-After now new_id k x ref d v =
    charge_run now new_id k x ref (find_charge k ref d.transactions) d v

-- Charging a customer, replaying an earlier charge and being refused for a different amount all keep
-- the invariant, at any later time.
pub charge_credits-Inv :
    (now now' : ℕ) (new_id : ℕ → ℕ) (k x : ℕ) (ref : Text) (d : Db)
    → now ≤ now'
    → Inv now d
    → Inv now' (with_tx (charge_credits now' new_id k x ref) d).1
charge_credits-Inv now now' new_id k x ref d late v =
    let v' = Inv-later now now' d late v in
    with_tx_lem (Inv now') (charge_credits now' new_id k x ref) d v'
      (charge_credits-After now' new_id k x ref d v')
