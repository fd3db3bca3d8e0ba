-- ===== src/Customers/Delete.antt =====
-- Deleting a customer with everything that refers to it: what the rows that are left add up to.
pub mod Keeps
use sms_gateway.Common.{
  ℕ, zero, suc, ◌+◌, ◌≤◌, ◌≡◌, ◌⊎◌, inl, inr, refl, sym, ap, subst, ◌∙◌, Bool, true, false, ◌&&◌,
  ◌||◌, not, Option, none, some, List, [], ◌∷◌, keep, any, ◌==◌, if◌then◌else◌, arith, All, All-imp,
  All-zip, Bool-cases,
}
use sms_gateway.Common.Int.{ℤ, pos}
use sms_gateway.Message.{Message, is_accepted}
use sms_gateway.Store.Tables.{
  Customer, Kind, Transaction, QueueRow, Db, is_id, has_customer, has_message, queued,
}
use sms_gateway.Store.Tx.{with_tx, with_tx_lem, After, After-throw_if}
use sms_gateway.Invariant.{Settled, Inv, Distinct}
use sms_gateway.Invariant.Sums.{sum_amounts, count_kind, amount_kind}
use sms_gateway.Invariant.Update.{Inv-later, others_differ}
use sms_gateway.Customers.{owns_message, stays, cascade, delete}

-- A transaction of a message is its customer's.
abbrev pub OwnedBy : List Transaction → Message → Type 0
OwnedBy txs m = All (λ t. is_id t.message_id m.id ≡ true → t.customer_id ≡ m.customer_id) txs

abbrev pub Owned : Db → Type 0
Owned d = All (OwnedBy d.transactions) d.messages

module _ (k : ℕ) where
  abbrev pub others : Transaction → Bool
  others t = not (t.customer_id == k)

  -- A message of the customer has no transactions of others, so what stays is what is not the customer's.
  refers_owned :
      (t : Transaction) (ms : List Message)
      → All (λ m. is_id t.message_id m.id ≡ true → t.customer_id ≡ m.customer_id) ms
      → stays k ms t ≡ others t
  unfolding stays owns_message
  refers_owned t ms h = go t.message_id ms h
    where
      go :
          (o : Option ℕ) (ms : List Message)
          → All (λ m. is_id o m.id ≡ true → t.customer_id ≡ m.customer_id) ms
          → stays k ms (record t { message_id = o }) ≡ others t
      go none ms h = ground arith
      go (some i) [] h = ground arith
      go (some i) (m ∷ ms) h = ground (arith, go (some i) ms h.1, h.0)

  pub count_same :
      (K : Kind) (i : ℕ) (txs : List Transaction)
      → All (λ t. is_id t.message_id i ≡ true → others t ≡ true) txs
      → (count_kind K i (keep others txs) ≡ count_kind K i txs)
        × (amount_kind K i (keep others txs) ≡ amount_kind K i txs)
  unfolding count_kind amount_kind
  count_same K i [] h = (refl, refl)
  count_same K i (t ∷ txs) h =
      let ih = count_same K i txs h.1 in (ground (arith, h.0, ih.0), ground (arith, h.0, ih.1))

  pub count_none :
      (K : Kind) (i : ℕ) (txs : List Transaction)
      → All (λ t. is_id t.message_id i ≡ true → t.customer_id ≡ k) txs
      → count_kind K i (keep others txs) ≡ 0
  unfolding count_kind
  count_none K i [] h = refl
  count_none K i (t ∷ txs) h = ground (arith, count_none K i txs h.1, h.0)

  pub count_fewer :
      (K : Kind) (i : ℕ) (txs : List Transaction)
      → count_kind K i txs ≡ 0
      → count_kind K i (keep others txs) ≡ 0
  unfolding count_kind
  count_fewer K i [] h = refl
  count_fewer K i (t ∷ txs) h = ground (arith, h, count_fewer K i txs)

  pub sum_others :
      (j : ℕ) (txs : List Transaction)
      → sum_amounts j (keep others txs) ≡ (if j == k then pos 0 else sum_amounts j txs)
  unfolding sum_amounts
  sum_others j [] = ground arith
  sum_others j (t ∷ txs) = ground (arith, sum_others j txs)

  -- A message id that is not left is none of the table's, or all its transactions go.
  pub gone :
      (txs : List Transaction) (i : ℕ) (ms : List Message)
      → All (OwnedBy txs) ms
      → has_message i (keep (λ m. not (m.customer_id == k)) ms) ≡ false
      → (has_message i ms ≡ false) ⊎ All (λ t. is_id t.message_id i ≡ true → t.customer_id ≡ k) txs
  unfolding has_message
  gone txs i [] o h = inl refl
  gone txs i (m ∷ ms) o h = elim (Bool-cases (m.id == i)) [
    | inl e ↦
        let mine : m.customer_id ≡ k = ground (arith, h, e) in
        let id : m.id ≡ i = ground (arith, e) in
        inr (
          All-imp _ _ txs (λ t f r. f (subst (λ j. is_id t.message_id j ≡ true) (sym id) r) ∙ mine)
            o.0)
    | inr e ↦ elim (gone txs i ms o.1 (ground (arith, h, e))) [
      | inl n ↦ inl (ground (arith, e, n))
      | inr a ↦ inr a
    ]
  ]

  -- A message of another customer owns its queue row.
  unowned :
      (m : Message) (ms : List Message)
      → has_message m.id ms ≡ false
      → owns_message k m.id ms ≡ false
  unfolding has_message owns_message
  unowned m [] h = refl
  unowned m (x ∷ ms) h = ground (arith, h, unowned m ms)

  pub queued_kept :
      (ms : List Message) (i : ℕ) (qs : List QueueRow)
      → owns_message k i ms ≡ false
      → queued i (keep (λ q. not (owns_message k q.message_id ms)) qs) ≡ queued i qs
  unfolding queued
  queued_kept ms i [] h = refl
  queued_kept ms i (q ∷ qs) h =
      ground
        (arith, queued_kept ms i qs h, h, ap (λ j. owns_message k j ms) {x = q.message_id} {y = i})

  pub others_own :
      (ms : List Message)
      → Distinct ms
      → All (λ m. not (m.customer_id == k) ≡ true → owns_message k m.id ms ≡ false) ms
  unfolding owns_message
  others_own [] u = tt
  others_own (m ∷ ms) u = (
    (λ e. ground (arith, e, unowned m ms u.0)),
    All-zip _ _ _ ms (λ x ne h e. ground (arith, ne, h e)) (others_differ m.id ms u.0)
        (others_own ms u.1),
  )

  pub keep-stays :
      (ms : List Message) (txs : List Transaction)
      → All (λ t. All (λ m. is_id t.message_id m.id ≡ true → t.customer_id ≡ m.customer_id) ms) txs
      → keep (stays k ms) txs ≡ keep others txs
  keep-stays ms [] o = refl
  keep-stays ms (t ∷ txs) o = rw (refers_owned t ms o.0, keep-stays ms txs o.1) refl

  -- All messages for all transactions, the other way round.
  push_owned :
      (t : Transaction) (txs : List Transaction) (ms : List Message)
      → All (OwnedBy (t ∷ txs)) ms
      → All (λ m. is_id t.message_id m.id ≡ true → t.customer_id ≡ m.customer_id) ms
        × All (OwnedBy txs) ms
  push_owned t txs [] o = (tt, tt)
  push_owned t txs (m ∷ ms) o =
      let rest = push_owned t txs ms o.1 in ((o.0.0, rest.0), (o.0.1, rest.1))

  pub turn :
      (txs : List Transaction) (ms : List Message)
      → All (OwnedBy txs) ms
      → All (λ t. All (λ m. is_id t.message_id m.id ≡ true → t.customer_id ≡ m.customer_id) ms) txs
  turn [] ms o = tt
  turn (t ∷ txs) ms o = let both = push_owned t txs ms o in (both.0, turn txs ms both.1)
