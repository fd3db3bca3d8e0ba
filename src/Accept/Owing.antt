-- ===== src/Accept/Owing.antt =====
-- The invariant while the customer k has yet to pay `a` for messages that are already recorded.
use sms_gateway.Common.{
  ℕ, ◌+◌, ◌-◌, ◌≤◌, ◌≡◌, refl, sym, ◌∙◌, ap, ◌≢◌, true, false, ◌&&◌, none, List, [], ◌∷◌, map, leb,
  ◌==◌, ==_iff, if◌then◌else◌, arith, All, All-map, All-imp, All-zip, Bool-cases, inl, inr,
}
use sms_gateway.Common.Int.{ℤ, pos, neg, pos_part, neg_part, ◌+ℤ◌, int_laws}
use sms_gateway.Message.{Message, accepted}
use sms_gateway.Store.Tables.{
  Customer, Kind, debit, refund, Transaction, QueueRow, Db, has_customer, has_message, queued,
}
use sms_gateway.Billing.{debit_customer, covers, set_customers, debit_row}
use sms_gateway.Invariant.{Settled, Distinct, Inv, times_violated}
use sms_gateway.Invariant.Sums.{sum_amounts, count_kind, amount_kind}
use sms_gateway.Invariant.Update.{others_differ}

pub record Owing (now k a : ℕ) (d : Db) : Type 0 where
  pub balanced :
      All
        (λ c. pos c.balance ≡ sum_amounts c.id d.transactions +ℤ pos (if c.id == k then a else 0))
        d.customers
  pub settled : All (Settled d.transactions d.queue now) d.messages
  pub distinct : Distinct d.messages
  pub known_message :
      (i : ℕ)
      → has_message i d.messages ≡ false
      → (count_kind debit i d.transactions ≡ 0) × (count_kind refund i d.transactions ≡ 0)
  pub known_customer :
      (j : ℕ) → has_customer j d.customers ≡ false → sum_amounts j d.transactions ≡ pos 0

no_amount :
    (k : Kind) (i : ℕ) (txs : List Transaction)
    → count_kind k i txs ≡ 0
    → amount_kind k i txs ≡ pos 0
unfolding count_kind amount_kind
no_amount k i [] h = refl
no_amount k i (t ∷ txs) h = ground (arith, no_amount k i txs)

abbrev Owes : ℕ → ℕ → List Transaction → Customer → Type 0
Owes k a txs c = pos c.balance ≡ sum_amounts c.id txs +ℤ pos (if c.id == k then a else 0)

-- The balance that the covered customer has.
covered :
    (k a : ℕ) (txs : List Transaction) (cs : List Customer)
    → covers k a cs ≡ true
    → All (Owes k a txs) cs
    → (b : ℕ) × (pos b ≡ sum_amounts k txs +ℤ pos a) × (a ≤ b)
unfolding covers
covered k a txs [] h o = absurd (ground arith)
covered k a txs (c ∷ cs) h o = elim (Bool-cases (c.id == k && leb a c.balance)) [
  | inl e ↦ (
    c.balance,
    ground (arith, e, o.0, ap (λ j. sum_amounts j txs) {x = c.id} {y = k}),
    ground (arith, e),
  )
  | inr e ↦ covered k a txs cs (ground (arith, e, h)) o.1
]

cancel : (s : ℤ) (a b : ℕ) → pos b ≡ s +ℤ pos a → a ≤ b → pos (b - a) ≡ s
cancel s a b h le = omega (int_laws, ap pos_part h, ap neg_part h)

cancel_zero : (s : ℤ) (b : ℕ) → pos b ≡ s +ℤ pos 0 → pos b ≡ s
cancel_zero s b h = omega (int_laws, ap pos_part h, ap neg_part h)

pos_inj : (m n : ℕ) → pos m ≡ pos n → m ≡ n
pos_inj m n h = ground arith

paid :
    (now k a b : ℕ) (txs : List Transaction) (c : Customer)
    → pos b ≡ sum_amounts k txs +ℤ pos a
    → a ≤ b
    → Owes k a txs c
    → pos (debit_customer now k a c).balance ≡ sum_amounts (debit_customer now k a c).id txs
unfolding debit_customer
paid now k a b txs c e le o = elim (Bool-cases (c.id == k)) [
  | inl mine ↦
      let same : c.id ≡ k = (==_iff c.id k).0 mine in
      let owed : pos c.balance ≡ sum_amounts c.id txs +ℤ pos a = ground (arith, o, mine) in
      let there : pos c.balance ≡ pos b =
        owed ∙ ap (λ j. sum_amounts j txs +ℤ pos a) same ∙ sym e in
      let enough : leb a c.balance ≡ true = ground (arith, pos_inj c.balance b there) in
      rw (mine, enough)
        (cancel (sum_amounts c.id txs) a c.balance owed (ground (arith, pos_inj c.balance b there)))
  | inr other ↦ rw other (cancel_zero (sum_amounts c.id txs) c.balance (ground (arith, o, other)))
]

has_customer-debit :
    (now k a i : ℕ) (cs : List Customer)
    → has_customer i (map (debit_customer now k a) cs) ≡ has_customer i cs
unfolding has_customer debit_customer
has_customer-debit now k a i [] = refl
has_customer-debit now k a i (c ∷ cs) = ground (arith, has_customer-debit now k a i cs)

-- Once the debt is debited, the invariant holds.
pub Owing-Inv :
    (now k a : ℕ) (d : Db)
    → Owing now k a d
    → covers k a d.customers ≡ true
    → Inv now (set_customers (map (debit_customer now k a)) d)
Owing-Inv now k a d o h =
    let (b, e, le) = covered k a d.transactions d.customers h o.balanced in
    record {
      balanced = All-map _ (debit_customer now k a) d.customers (
          All-imp (Owes k a d.transactions) _ d.customers
            (λ c owes. paid now k a b d.transactions c e le owes) o.balanced);
      settled = o.settled;
      distinct = o.distinct;
      known_message = o.known_message;
      known_customer =
          λ j absent. o.known_customer j (sym (has_customer-debit now k a j d.customers) ∙ absent);
    }

-- What an accepted message starts with.
pub record IsNew (now : ℕ) (m : Message) : Type 0 where
  pub waiting : m.status ≡ accepted
  pub unsent : m.sent_at ≡ none
  pub unfinished : m.completed_at ≡ none
  pub past : m.accepted_at ≤ now
  pub costly : 1 ≤ m.cost

owed_more : (s : ℤ) (a cost b : ℕ) → pos b ≡ s +ℤ pos a → pos b ≡ neg cost +ℤ s +ℤ pos (a + cost)
owed_more s a cost b h = omega (int_laws, ap pos_part h, ap neg_part h)

neg_alone : (n : ℕ) → neg n +ℤ pos 0 ≡ neg n
neg_alone n = omega int_laws

debit_row-Owes :
    (k a cost : ℕ) (txs : List Transaction) (t : Transaction) (c : Customer)
    → t.customer_id ≡ k
    → t.amount ≡ neg cost
    → Owes k a txs c
    → Owes k (a + cost) (t ∷ txs) c
unfolding sum_amounts
debit_row-Owes k a cost txs t c of_k of_amount o = elim (Bool-cases (c.id == k)) [
  | inl mine ↦
      let also : (t.customer_id == c.id) ≡ true = ground (arith, mine, of_k) in
      let owed : pos c.balance ≡ sum_amounts c.id txs +ℤ pos a = ground (arith, o, mine) in
      rw (mine, also, of_amount) (owed_more (sum_amounts c.id txs) a cost c.balance owed)
  | inr other ↦
      let neither : (t.customer_id == c.id) ≡ false = ground (arith, other, of_k) in
      let owed : pos c.balance ≡ sum_amounts c.id txs +ℤ pos 0 = ground (arith, o, other) in
      rw (other, neither) owed
]

abbrev debit_of : ℕ → ℕ → ℕ → Message → Transaction
debit_of now tid k m = debit_row now tid k (record { message_id = m.id; amount = m.cost })

debit_row-Settled :
    (now tid k : ℕ) (txs : List Transaction) (q : List QueueRow) (m : Message)
    → IsNew now m
    → queued m.id q ≡ true
    → count_kind debit m.id txs ≡ 0
    → count_kind refund m.id txs ≡ 0
    → Settled (debit_of now tid k m ∷ txs) q now m
unfolding count_kind amount_kind debit_row times_violated
debit_row-Settled now tid k txs q m n waits nd nr = record {
  debit_once = ground (arith, nd);
  debit_cost = ground (arith, no_amount debit m.id txs nd, neg_alone m.cost);
  refund_due = rw n.waiting (ground (arith, nr));
  refund_cost = rw n.waiting (ground (arith, no_amount refund m.id txs nr));
  waiting = λ e. waits;
  unsent = λ e. n.unsent;
  timely = rw (n.waiting, n.unsent, n.unfinished) refl;
  past = n.past;
  costly = n.costly;
}

others_differ-Settled :
    (now tid k : ℕ) (txs : List Transaction) (q : List QueueRow) (m m' : Message)
    → m'.id ≢ m.id
    → Settled txs q now m'
    → Settled (debit_of now tid k m ∷ txs) q now m'
unfolding count_kind amount_kind debit_row
others_differ-Settled now tid k txs q m m' ne s =
    let other : (m.id == m'.id) ≡ false = ground (arith, ne) in
    record {
      debit_once = rw other s.debit_once;
      debit_cost = rw other s.debit_cost;
      refund_due = s.refund_due;
      refund_cost = s.refund_cost;
      waiting = s.waiting;
      unsent = s.unsent;
      timely = s.timely;
      past = s.past;
      costly = s.costly;
    }

-- A new message of customer k and its debit are recorded, while its queue row is there.
pub Owing-add :
    (now k a tid : ℕ) (d : Db) (m : Message)
    → Owing now k a d
    → has_message m.id d.messages ≡ false
    → has_customer k d.customers ≡ true
    → queued m.id d.queue ≡ true
    → IsNew now m
    → Owing now k (a + m.cost) (record d {
      messages = m ∷ d.messages;
      transactions =
          debit_row now tid k (record { message_id = m.id; amount = m.cost }) ∷ d.transactions;
    })
unfolding sum_amounts count_kind debit_row has_message
Owing-add now k a tid d m o fresh known waits n =
    let (nd, nr) = o.known_message m.id fresh in
    record {
      balanced =
          All-imp (Owes k a d.transactions) _ d.customers
            (λ c owes.
              debit_row-Owes k a m.cost d.transactions (debit_of now tid k m) c refl refl owes)
            o.balanced;
      settled = (
        debit_row-Settled now tid k d.transactions d.queue m n waits nd nr,
        All-zip (λ m'. m'.id ≢ m.id) (Settled d.transactions d.queue now) _ d.messages
            (λ m' ne s'. others_differ-Settled now tid k d.transactions d.queue m m' ne s')
            (others_differ m.id d.messages fresh) o.settled,
      );
      distinct = (fresh, o.distinct);
      known_message = λ i absent.
          let other : (m.id == i) ≡ false = ground (arith, absent) in
          rw other (o.known_message i (ground (arith, absent)));
      known_customer = λ j absent.
          let other : (k == j) ≡ false =
            ground (arith, absent, known, ap (λ x. has_customer x d.customers) {x = k} {y = j}) in
          rw other (o.known_customer j absent);
    }
