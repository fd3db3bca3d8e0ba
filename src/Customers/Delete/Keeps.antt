-- ===== src/Customers/Delete/Keeps.antt =====
-- Deleting a customer keeps the invariant.
use sms_gateway.Common.{
  ℕ, ◌≤◌, ◌≡◌, inl, inr, refl, sym, ap, ◌∙◌, Bool, true, false, not, List, [], ◌∷◌, keep, ◌==◌,
  if◌then◌else◌, arith, All, All-imp, All-zip, Bool-cases,
}
use sms_gateway.Common.Int.{ℤ, pos}
use sms_gateway.Message.{Message}
use sms_gateway.Store.Tables.{
  Customer, Kind, debit, refund, Transaction, QueueRow, Db, has_customer, has_message, is_id,
}
use sms_gateway.Store.Tx.{with_tx, with_tx_lem, After-throw_if}
use sms_gateway.Invariant.{Settled, Inv, Distinct}
use sms_gateway.Invariant.Sums.{sum_amounts, count_kind}
use sms_gateway.Invariant.Update.{Inv-later}
use sms_gateway.Customers.{owns_message, stays, cascade, delete}
use sms_gateway.Customers.Delete.{
  OwnedBy, Owned, others, keep-stays, turn, count_same, count_none, count_fewer, sum_others, gone,
  queued_kept, others_own,
}

All-kept_if :
    {A : Type 0} (P : A → Type 0) (q : A → Bool) (xs : List A)
    → All (λ x. q x ≡ true → P x) xs
    → All P (keep q xs)
All-kept_if P q [] h = tt
All-kept_if P q (x ∷ xs) h = elim (Bool-cases (q x)) [
  | inl e ↦ rw e (h.0 e, All-kept_if P q xs h.1)
  | inr e ↦ rw e (All-kept_if P q xs h.1)
]

has_message-keep :
    (i : ℕ) (q : Message → Bool) (ms : List Message)
    → has_message i ms ≡ false
    → has_message i (keep q ms) ≡ false
unfolding has_message
has_message-keep i q [] h = refl
has_message-keep i q (m ∷ ms) h = ground (arith, h, has_message-keep i q ms)

Distinct-keep : (q : Message → Bool) (ms : List Message) → Distinct ms → Distinct (keep q ms)
Distinct-keep q [] u = tt
Distinct-keep q (m ∷ ms) u = elim (Bool-cases (q m)) [
  | inl e ↦ rw e (has_message-keep m.id q ms u.0, Distinct-keep q ms u.1)
  | inr e ↦ rw e (Distinct-keep q ms u.1)
]

known_left :
    (k j : ℕ) (cs : List Customer)
    → has_customer j (keep (λ c. not (c.id == k)) cs) ≡ false
    → (j == k) ≡ false
    → has_customer j cs ≡ false
unfolding has_customer
known_left k j [] h n = refl
known_left k j (c ∷ cs) h n = ground (arith, h, n, known_left k j cs)

module _ (k now : ℕ) (d : Db) (v : Inv now d) (o : Owned d) where
  left : List Transaction
  left = keep (others k) d.transactions

  row_left : QueueRow → Bool
  row_left q = not (owns_message k q.message_id d.messages)

  Settled-left :
      All
        (λ m. not (m.customer_id == k) ≡ true → Settled left (keep row_left d.queue) now m)
        d.messages
  unfolding left row_left
  Settled-left =
      All-zip (λ m. Settled d.transactions d.queue now m × OwnedBy d.transactions m)
        (λ m. not (m.customer_id == k) ≡ true → owns_message k m.id d.messages ≡ false) _ d.messages
        (λ m so f e.
          let s = so.0 in
          let mine : All (λ t. is_id t.message_id m.id ≡ true → others k t ≡ true) d.transactions =
            All-imp _ _ d.transactions (λ t g r. ap (λ c. not (c == k)) (g r) ∙ e) so.1 in
          let db = count_same k debit m.id d.transactions mine in
          let rf = count_same k refund m.id d.transactions mine in
          record {
            debit_once = db.0 ∙ s.debit_once;
            debit_cost = db.1 ∙ s.debit_cost;
            refund_due = rf.0 ∙ s.refund_due;
            refund_cost = rf.1 ∙ s.refund_cost;
            waiting = λ a. queued_kept k d.messages m.id d.queue (f e) ∙ s.waiting a;
            unsent = s.unsent;
            timely = s.timely;
            past = s.past;
            costly = s.costly;
          })
        (All-zip _ _ _ d.messages (λ m s w. (s, w)) v.settled o)
        (others_own k d.messages v.distinct)

  counts_left :
      (K : Kind) (i : ℕ)
      → has_message i (keep (λ m. not (m.customer_id == k)) d.messages) ≡ false
      → (has_message i d.messages ≡ false → count_kind K i d.transactions ≡ 0)
      → count_kind K i left ≡ 0
  unfolding left
  counts_left K i h z = elim (gone k d.transactions i d.messages o h) [
    | inl n ↦ count_fewer k K i d.transactions (z n)
    | inr a ↦ count_none k K i d.transactions a
  ]

  cascade-Inv : Inv now (cascade k d)
  unfolding cascade left row_left
  cascade-Inv =
      let e : keep (stays k d.messages) d.transactions ≡ left =
        keep-stays k d.messages d.transactions (turn k d.transactions d.messages o) in
      record {
        balanced = rw e (
            All-kept_if _ (λ c. not (c.id == k)) d.customers
              (All-imp _ _ d.customers
                (λ c b n.
                  b
                  ∙ sym (
                      sum_others k c.id d.transactions
                      ∙ other (sum_amounts c.id d.transactions) (c.id == k) n))
                v.balanced));
        settled = rw e (All-kept_if _ (λ m. not (m.customer_id == k)) d.messages Settled-left);
        distinct = Distinct-keep _ d.messages v.distinct;
        known_message = λ i h. rw e (
          counts_left debit i h (λ n. (v.known_message i n).0),
          counts_left refund i h (λ n. (v.known_message i n).1),
        );
        known_customer = λ j h. rw e (sum_others k j d.transactions ∙ none_left j h (j == k) refl);
      }
    where
      other : (x : ℤ) (b : Bool) → not b ≡ true → (if b then pos 0 else x) ≡ x
      other x b n = ground (arith, n)

      none_left :
          (j : ℕ)
          → has_customer j (keep (λ c. not (c.id == k)) d.customers) ≡ false
          → (b : Bool) → (j == k) ≡ b
          → (if b then pos 0 else sum_amounts j d.transactions) ≡ pos 0
      none_left j h true e = refl
      none_left j h false e = v.known_customer j (known_left k j d.customers h e)

-- Where every transaction of a message is the customer's of that message: deleting a customer, with its
-- messages, transactions and queue rows, keeps the invariant at any later time, also if it is not found.
pub delete-Inv :
    (now now' k : ℕ) (d : Db) → now ≤ now' → Owned d → Inv now d → Inv now' (with_tx (delete k) d).1
unfolding delete
delete-Inv now now' k d late o v =
    let v' = Inv-later now now' d late v in
    with_tx_lem (Inv now') (delete k) d v' (
      After-throw_if (λ _ z. Inv now' z) (not (has_customer k d.customers)) _ _ d
        λ _. cascade-Inv k now' d v' o)
