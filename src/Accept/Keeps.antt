-- ===== src/Accept/Keeps.antt =====
-- Accepting messages keeps the invariant.
use sms_gateway.Common.{
  ℕ, ◌+◌, ◌≤◌, ◌≡◌, refl, sym, ap, subst, ◌∙◌, Bool, true, false, ◌&&◌, not, List, [], ◌∷◌, map,
  ltb, ◌==◌, length, if◌then◌else◌, arith, All-imp,
}
use sms_gateway.Common.Int.{ℤ, pos, pos_part, neg_part, ◌+ℤ◌, int_laws}
use sms_gateway.Common.Text.{Text}
use sms_gateway.Store.Tables.{Customer, Db, has_customer, queued}
use sms_gateway.Store.Tx.{with_tx, with_tx_lem, After, After-bind, After-imp, After-throw_if}
use sms_gateway.Billing.{
  debit_balance, debit_customer, covers, set_customers, current_balance, record_debits,
  insert_debits,
}
use sms_gateway.Billing.Credits.{current_balance_same}
use sms_gateway.Invariant.{Inv}
use sms_gateway.Invariant.Sums.{sum_amounts}
use sms_gateway.Message.{MessageType}
use sms_gateway.Invariant.Update.{Inv-queue, Inv-later}
use sms_gateway.Accept.{
  Item, AcceptConfig, Accepted, accepted_row, debits_of, total_of, lane_of, insert_messages,
  enqueue, finish, insert,
}
use sms_gateway.Accept.Owing.{Owing, Owing-Inv, Owing-add}
use sms_gateway.Accept.Rows.{
  add_rows, Fresh, Added, insert_messages-Added, add_debits, insert_debits_rows, AllQueued,
  AllStored, Enqueued, enqueue-Enqueued, add_rows-AllStored,
}

covers-has_customer :
    (k a : ℕ) (cs : List Customer) → covers k a cs ≡ true → has_customer k cs ≡ true
unfolding covers has_customer
covers-has_customer k a [] h = absurd (ground arith)
covers-has_customer k a (c ∷ cs) h = ground (arith, covers-has_customer k a cs)

-- One message after the other is recorded with its debit.
Owing-rows :
    (now k a : ℕ) (cfg : AcceptConfig) (new_id new_tx : ℕ → ℕ) (i : ℕ) (xs : List Item) (d : Db)
    → has_customer k d.customers ≡ true
    → Owing now k a d
    → Fresh now cfg k new_id i xs d.messages
    → AllQueued new_id i xs d.queue
    → Owing now k (a + total_of xs) (record d {
      messages = add_rows now cfg k new_id i xs d.messages;
      transactions = add_debits now k new_tx i (debits_of new_id i xs) d.transactions;
    })
unfolding add_rows add_debits debits_of total_of accepted_row
Owing-rows now k a cfg new_id new_tx i [] d known o f q =
    let same : a + 0 ≡ a = omega arith in rw same o
Owing-rows now k a cfg new_id new_tx i (x ∷ xs) d known o f q =
    let m = accepted_row now cfg k (new_id i) x in
    let one = Owing-add now k a (new_tx i) d m o f.0 known q.0 (record {
      waiting = refl;
      unsent = refl;
      unfinished = refl;
      past = omega arith;
      costly = f.1;
    }) in
    let all = Owing-rows now k (a + x.cost) cfg new_id new_tx (i + 1) xs _ known one f.2 q.1 in
    let same : a + (x.cost + total_of xs) ≡ a + x.cost + total_of xs = omega arith in rw same all

debited :
    (now k a : ℕ) (d : Db)
    → After
        (λ _ d'.
          (d' ≡ set_customers (map (debit_customer now k a)) d) × (covers k a d.customers ≡ true))
        (debit_balance now k a d)
unfolding debit_balance
debited now k a d =
    let paid = set_customers (map (debit_customer now k a)) d in
    After-throw_if _ (not (covers k a d.customers)) _ _ d λ enough.
      After-imp (λ _ d'. d' ≡ paid) _ (current_balance k paid)
        (λ _ d' e. (e, ground (arith, enough))) (current_balance_same k paid)

owes_nothing : (s : ℤ) (b : ℕ) (c : Bool) → pos b ≡ s → pos b ≡ s +ℤ pos (if c then 0 else 0)
owes_nothing s b true h = omega (int_laws, ap pos_part h, ap neg_part h)
owes_nothing s b false h = omega (int_laws, ap pos_part h, ap neg_part h)

Owing-none : (now k : ℕ) (d : Db) → Inv now d → Owing now k 0 d
Owing-none now k d v = record {
  balanced =
      All-imp _ _ d.customers
        (λ c e. owes_nothing (sum_amounts c.id d.transactions) c.balance (c.id == k) e) v.balanced;
  settled = v.settled;
  distinct = v.distinct;
  known_message = v.known_message;
  known_customer = v.known_customer;
}

-- What a successful run of `insert` does to the tables.
record Accepting (now k : ℕ) (cfg : AcceptConfig) (new_id new_tx : ℕ → ℕ) (xs : List Item)
    (d d' : Db) : Type 0 where
  before_payment : Db
  fresh : Fresh now cfg k new_id 0 xs d.messages
  recorded : before_payment ≡ record d {
    messages = add_rows now cfg k new_id 0 xs d.messages;
    transactions = add_debits now k new_tx 0 (debits_of new_id 0 xs) d.transactions;
    queue = before_payment.queue;
  }
  keeps : (j : ℕ) → queued j d.queue ≡ true → queued j before_payment.queue ≡ true
  all_queued : AllQueued new_id 0 xs before_payment.queue
  paid : d' ≡ set_customers (map (debit_customer now k (total_of xs))) before_payment
  enough : covers k (total_of xs) before_payment.customers ≡ true

Accepting-Inv :
    (now now' k : ℕ) (cfg : AcceptConfig) (new_id new_tx : ℕ → ℕ) (xs : List Item) (d d₄ : Db)
    → now ≤ now'
    → Inv now d
    → Accepting now' k cfg new_id new_tx xs d d₄
    → Inv now' d₄
Accepting-Inv now now' k cfg new_id new_tx xs d d₄ late v r =
    let d₃ = r.before_payment in
    let stored : Db = record d {
      messages = add_rows now' cfg k new_id 0 xs d.messages;
      transactions = add_debits now' k new_tx 0 (debits_of new_id 0 xs) d.transactions;
      queue = d₃.queue;
    } in
    let enough' : covers k (total_of xs) stored.customers ≡ true =
      subst (λ (z : Db). covers k (total_of xs) z.customers ≡ true) r.recorded r.enough in
    let start : Inv now' (record d { queue = d₃.queue }) =
      Inv-queue now now' d₃.queue d late v r.keeps in
    let owing =
      Owing-rows now' k 0 cfg new_id new_tx 0 xs (record d { queue = d₃.queue })
        (covers-has_customer k (total_of xs) d.customers enough')
        (Owing-none now' k (record d { queue = d₃.queue }) start) r.fresh r.all_queued in
    let whole : 0 + total_of xs ≡ total_of xs = omega arith in
    subst (Inv now')
      (sym (r.paid ∙ ap (set_customers (map (debit_customer now' k (total_of xs)))) r.recorded))
      (Owing-Inv now' k (total_of xs) stored (subst (λ n. Owing now' k n stored) whole owing)
        enough')

-- From the queue INSERT on.
finish-Accepting :
    (now k : ℕ) (cfg : AcceptConfig) (lane : MessageType → Text) (new_id new_tx : ℕ → ℕ)
    (xs : List Item) (d d₂ : Db)
    → Fresh now cfg k new_id 0 xs d.messages
    → d₂ ≡ record d {
      messages = add_rows now cfg k new_id 0 xs d.messages;
      transactions = add_debits now k new_tx 0 (debits_of new_id 0 xs) d.transactions;
    }
    → After (λ _ d'. Accepting now k cfg new_id new_tx xs d d') (finish now lane new_id k xs d₂)
unfolding finish
finish-Accepting now k cfg lane new_id new_tx xs d d₂ fresh e₂ =
    After-bind (λ _ d'. Enqueued new_id 0 xs d₂ d')
      (λ _ d'. Accepting now k cfg new_id new_tx xs d d') (enqueue now lane new_id 0 xs) _ d₂
      (enqueue-Enqueued now lane new_id 0 xs d₂ (
        subst (λ (z : Db). AllStored new_id 0 xs z.messages) (sym e₂)
          (add_rows-AllStored now cfg k new_id 0 xs d.messages)))
      λ _ d₃ q.
        After-bind
          (λ _ d'.
            (d' ≡ set_customers (map (debit_customer now k (total_of xs))) d₃)
            × (covers k (total_of xs) d₃.customers ≡ true))
          (λ _ d'. Accepting now k cfg new_id new_tx xs d d') (debit_balance now k (total_of xs)) _
          d₃ (debited now k (total_of xs) d₃)
          λ _ d₄ e. record {
            before_payment = d₃;
            fresh = fresh;
            recorded = q.only_queue ∙ ap {A = Db} {B = Db} (λ z. record z { queue = d₃.queue }) e₂;
            keeps = λ j h. q.keeps j (subst (λ (z : Db). queued j z.queue ≡ true) (sym e₂) h);
            all_queued = q.all_queued;
            paid = e.0;
            enough = e.1;
          }

insert-Accepting :
    (now : ℕ) (cfg : AcceptConfig) (hash : ℕ → ℕ) (itoa : ℕ → Text) (new_id new_tx : ℕ → ℕ) (k : ℕ)
    (xs : List Item) (d : Db)
    → After
        (λ _ d'. Accepting now k cfg new_id new_tx xs d d')
        (insert now cfg hash itoa new_id new_tx k xs d)
unfolding insert record_debits
insert-Accepting now cfg hash itoa new_id new_tx k xs d =
    let Q : Accepted → Db → Type 0 = λ _ d'. Accepting now k cfg new_id new_tx xs d d' in
    let debits = debits_of new_id 0 xs in
    let lane : MessageType → Text = λ t. lane_of hash itoa t k cfg.normal_lanes in
    After-bind (Added now cfg k new_id 0 xs d) Q (insert_messages now cfg k new_id 0 xs) _ d
      (insert_messages-Added now cfg k new_id 0 xs d)
      λ n d₁ a. After-throw_if Q (ltb 0 n && not (has_customer k d₁.customers)) _ _ d₁ λ _.
        After-throw_if Q (ltb n (length xs)) _ _ d₁ λ complete.
          let (e₁, fresh) = a.1 (ground (arith, complete, a.0)) in
          After-bind
            (λ _ d'.
              d' ≡ record d₁ { transactions = add_debits now k new_tx 0 debits d₁.transactions })
            Q (insert_debits now new_tx k 0 debits) _ d₁
            (insert_debits_rows now new_tx k 0 debits d₁)
            λ _ d₂ e₂. finish-Accepting now k cfg lane new_id new_tx xs d d₂ fresh (
              e₂
              ∙ ap {A = Db} {B = Db}
                  (λ z. record z { transactions = add_debits now k new_tx 0 debits z.transactions })
                  e₁)

-- Accepting any batch, for any customer and at any later time, keeps the invariant: whether it is
-- accepted or refused for a client_ref that is taken, missing credits or an error of the database.
pub insert-Inv :
    (now now' : ℕ) (cfg : AcceptConfig) (hash : ℕ → ℕ) (itoa : ℕ → Text) (new_id new_tx : ℕ → ℕ)
    (k : ℕ) (xs : List Item) (d : Db)
    → now ≤ now'
    → Inv now d
    → Inv now' (with_tx (insert now' cfg hash itoa new_id new_tx k xs) d).1
insert-Inv now now' cfg hash itoa new_id new_tx k xs d late v =
    with_tx_lem (Inv now') (insert now' cfg hash itoa new_id new_tx k xs) d
      (Inv-later now now' d late v)
      (After-imp _ _ (insert now' cfg hash itoa new_id new_tx k xs d)
        (λ _ d' r. Accepting-Inv now now' k cfg new_id new_tx xs d d' late v r)
        (insert-Accepting now' cfg hash itoa new_id new_tx k xs d))

-- If no balance of the customer covers the total cost of the batch, nothing is recorded.
pub insert_uncovered :
    (now : ℕ) (cfg : AcceptConfig) (hash : ℕ → ℕ) (itoa : ℕ → Text) (new_id new_tx : ℕ → ℕ) (k : ℕ)
    (xs : List Item) (d : Db)
    → covers k (total_of xs) d.customers ≡ false
    → (with_tx (insert now cfg hash itoa new_id new_tx k xs) d).1 ≡ d
insert_uncovered now cfg hash itoa new_id new_tx k xs d h =
    with_tx_lem (λ d'. d' ≡ d) (insert now cfg hash itoa new_id new_tx k xs) d refl
      (After-imp _ _ (insert now cfg hash itoa new_id new_tx k xs d) (λ _ d' r. absurd (broke d' r))
        (insert-Accepting now cfg hash itoa new_id new_tx k xs d))
  where
    broke : (d' : Db) → Accepting now k cfg new_id new_tx xs d d' → ⊥
    broke d' r =
        let paid_for : covers k (total_of xs) d.customers ≡ true =
          subst (λ (z : Db). covers k (total_of xs) z.customers ≡ true) r.recorded r.enough in
        ground (arith, h, paid_for)
