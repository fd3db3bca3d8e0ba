-- ===== src/Accept/Rows.antt =====
-- The tables after each statement of `insert`, when it succeeds.
use sms_gateway.Common.{
  ℕ, ◌+◌, ◌≤◌, ◌≡◌, refl, ap, subst, ◌∙◌, Bool, true, false, ◌&&◌, not, List, [], ◌∷◌, ◌++◌, ◌==◌,
  length, if◌then◌else◌, arith, Bool-cases, inl, inr,
}
use sms_gateway.Common.Text.{Text}
use sms_gateway.Message.{Message, MessageType}
use sms_gateway.Store.Tables.{
  debit, has_customer, Transaction, QueueRow, Db, null_text, has_message, queued,
}
use sms_gateway.Store.Tx.{After, After-bind, After-imp, After-throw_if}
use sms_gateway.Billing.{has_id, has_kind, Debit, debit_row, add_row, insert_debit, insert_debits}
use sms_gateway.Accept.{
  Item, AcceptConfig, accepted_row, has_ref, refused, insert_message, insert_messages, queue_rows,
  enqueue,
}

-- The messages with all rows inserted, and what the insertion tested of each.
unfoldable pub add_rows :
    ℕ → AcceptConfig → ℕ → (ℕ → ℕ) → ℕ → List Item → List Message → List Message
add_rows now cfg k new_id i [] ms = ms
add_rows now cfg k new_id i (x ∷ xs) ms =
    add_rows now cfg k new_id (i + 1) xs (accepted_row now cfg k (new_id i) x ∷ ms)

abbrev pub Fresh : ℕ → AcceptConfig → ℕ → (ℕ → ℕ) → ℕ → List Item → List Message → Type 0
Fresh now cfg k new_id i [] ms = Unit
Fresh now cfg k new_id i (x ∷ xs) ms =
    (has_message (new_id i) ms ≡ false)
    × (1 ≤ x.cost)
    × Fresh now cfg k new_id (i + 1) xs (accepted_row now cfg k (new_id i) x ∷ ms)

abbrev pub Added : ℕ → AcceptConfig → ℕ → (ℕ → ℕ) → ℕ → List Item → Db → ℕ → Db → Type 0
Added now cfg k new_id i xs d n d' =
    (n ≤ length xs)
    × (n ≡ length xs
        → (d' ≡ record d { messages = add_rows now cfg k new_id i xs d.messages })
          × Fresh now cfg k new_id i xs d.messages)

-- One row: it is there, or it was skipped.
abbrev OneAdded : ℕ → AcceptConfig → ℕ → ℕ → Item → Db → Bool → Db → Type 0
OneAdded now cfg k id x d one d' =
    one ≡ true
    → (d' ≡ record d { messages = accepted_row now cfg k id x ∷ d.messages })
      × (has_message id d.messages ≡ false)
      × (1 ≤ x.cost)

insert_message-OneAdded :
    (now : ℕ) (cfg : AcceptConfig) (k id : ℕ) (x : Item) (d : Db)
    → After (OneAdded now cfg k id x d) (insert_message now cfg k id x d)
unfolding insert_message
insert_message-OneAdded now cfg k id x d =
    After-throw_if (OneAdded now cfg k id x d) (refused x) _ _ d λ fine.
      After-throw_if (OneAdded now cfg k id x d)
        (not (has_ref k (null_text x.ref) d.messages) && has_message id d.messages) _ _ d
        λ free. elim (Bool-cases (has_ref k (null_text x.ref) d.messages)) [
          | inl skip ↦ λ one. absurd (ground (arith, skip, one))
          | inr new ↦ λ one. (rw new refl, ground (arith, new, free), ground (arith, fine))
        ]

insert_message-Added :
    (now : ℕ) (cfg : AcceptConfig) (k : ℕ) (new_id : ℕ → ℕ) (i : ℕ) (x : Item) (xs : List Item)
    (d d₁ d₂ : Db) (one : Bool) (n : ℕ)
    → OneAdded now cfg k (new_id i) x d one d₁
    → Added now cfg k new_id (i + 1) xs d₁ n d₂
    → Added now cfg k new_id i (x ∷ xs) d ((if one then 1 else 0) + n) d₂
unfolding add_rows
insert_message-Added now cfg k new_id i x xs d d₁ d₂ one n h a = (
  ground (arith, a.0),
  λ e.
      let is_new : one ≡ true = ground (arith, e, a.0) in
      let all : n ≡ length xs = ground (arith, e, is_new) in
      let (s, free, costs) = h is_new in
      let (r, rest) = a.1 all in
      (
        r
            ∙ ap {A = Db} {B = Db}
                (λ z. record z { messages = add_rows now cfg k new_id (i + 1) xs z.messages }) s,
        (free, costs, subst (λ z. Fresh now cfg k new_id (i + 1) xs z.messages) s rest),
      ),
)

pub insert_messages-Added :
    (now : ℕ) (cfg : AcceptConfig) (k : ℕ) (new_id : ℕ → ℕ) (i : ℕ) (xs : List Item) (d : Db)
    → After (Added now cfg k new_id i xs d) (insert_messages now cfg k new_id i xs d)
unfolding insert_messages add_rows
insert_messages-Added now cfg k new_id i [] d = (omega arith, λ e. (refl, tt))
insert_messages-Added now cfg k new_id i (x ∷ xs) d =
    After-bind (OneAdded now cfg k (new_id i) x d) (Added now cfg k new_id i (x ∷ xs) d)
      (insert_message now cfg k (new_id i) x) _ d (insert_message-OneAdded now cfg k (new_id i) x d)
      λ one d₁ h.
        After-bind (Added now cfg k new_id (i + 1) xs d₁) (Added now cfg k new_id i (x ∷ xs) d)
          (insert_messages now cfg k new_id (i + 1) xs) _ d₁
          (insert_messages-Added now cfg k new_id (i + 1) xs d₁)
          λ n d₂ a. insert_message-Added now cfg k new_id i x xs d d₁ d₂ one n h a

-- The transactions with all debits inserted.
unfoldable pub add_debits : ℕ → ℕ → (ℕ → ℕ) → ℕ → List Debit → List Transaction → List Transaction
add_debits now k new_tx i [] ts = ts
add_debits now k new_tx i (x ∷ xs) ts =
    add_debits now k new_tx (i + 1) xs (debit_row now (new_tx i) k x ∷ ts)

insert_debit_row :
    (now id k : ℕ) (x : Debit) (d : Db)
    → After
        (λ _ d'. d' ≡ record d { transactions = debit_row now id k x ∷ d.transactions })
        (insert_debit now id k x d)
unfolding insert_debit add_row
insert_debit_row now id k x d =
    let P : Unit {0} → Db → Type 0 =
      λ _ d'. d' ≡ record d { transactions = debit_row now id k x ∷ d.transactions } in
    After-throw_if P (x.amount == 0) _ _ d λ _.
      After-throw_if P (has_id id d.transactions) _ _ d λ _.
        After-throw_if P (has_kind debit x.message_id d.transactions) _ _ d λ _.
          After-throw_if P (not (has_customer k d.customers)) _ _ d
            λ _. After-throw_if P (not (has_message x.message_id d.messages)) _ _ d λ _. refl

pub insert_debits_rows :
    (now : ℕ) (new_tx : ℕ → ℕ) (k i : ℕ) (xs : List Debit) (d : Db)
    → After
        (λ _ d'. d' ≡ record d { transactions = add_debits now k new_tx i xs d.transactions })
        (insert_debits now new_tx k i xs d)
unfolding insert_debits add_debits
insert_debits_rows now new_tx k i [] d = refl
insert_debits_rows now new_tx k i (x ∷ xs) d =
    After-bind
      (λ _ d'. d' ≡ record d { transactions = debit_row now (new_tx i) k x ∷ d.transactions })
      (λ _ d'. d' ≡ record d { transactions = add_debits now k new_tx i (x ∷ xs) d.transactions })
      (insert_debit now (new_tx i) k x) _ d (insert_debit_row now (new_tx i) k x d)
      λ _ d₁ h.
        After-imp
          (λ _ d'.
            d' ≡ record d₁ { transactions = add_debits now k new_tx (i + 1) xs d₁.transactions })
          _ (insert_debits now new_tx k (i + 1) xs d₁)
          (λ _ d' e.
            e
            ∙ ap {A = Db} {B = Db}
                (λ z. record z { transactions = add_debits now k new_tx (i + 1) xs z.transactions })
                h)
          (insert_debits_rows now new_tx k (i + 1) xs d₁)

-- Every id has a queue row.
abbrev pub AllQueued : (ℕ → ℕ) → ℕ → List Item → List QueueRow → Type 0
AllQueued new_id i [] q = Unit
AllQueued new_id i (x ∷ xs) q = (queued (new_id i) q ≡ true) × AllQueued new_id (i + 1) xs q

-- Every id has a message.
abbrev pub AllStored : (ℕ → ℕ) → ℕ → List Item → List Message → Type 0
AllStored new_id i [] ms = Unit
AllStored new_id i (x ∷ xs) ms = (has_message (new_id i) ms ≡ true) × AllStored new_id (i + 1) xs ms

pub record Enqueued (new_id : ℕ → ℕ) (i : ℕ) (xs : List Item) (d d' : Db) : Type 0 where
  pub only_queue : d' ≡ record d { queue = d'.queue }
  pub keeps : (j : ℕ) → queued j d.queue ≡ true → queued j d'.queue ≡ true
  pub all_queued : AllQueued new_id i xs d'.queue

queued-queue_rows :
    (now id : ℕ) (lane : Text) (ms : List Message) (q : List QueueRow) (j : ℕ)
    → queued j q ≡ true
    → queued j (queue_rows now id lane ms ++ q) ≡ true
unfolding queue_rows queued
queued-queue_rows now id lane [] q j h = h
queued-queue_rows now id lane (m ∷ ms) q j h =
    ground (arith, queued-queue_rows now id lane ms q j h)

stored-queued :
    (now id : ℕ) (lane : Text) (ms : List Message) (q : List QueueRow)
    → has_message id ms ≡ true
    → queued id (queue_rows now id lane ms ++ q) ≡ true
unfolding queue_rows queued has_message
stored-queued now id lane [] q h = absurd (ground (arith, h))
stored-queued now id lane (m ∷ ms) q h = ground (arith, stored-queued now id lane ms q)

pub enqueue-Enqueued :
    (now : ℕ) (lane : MessageType → Text) (new_id : ℕ → ℕ) (i : ℕ) (xs : List Item) (d : Db)
    → AllStored new_id i xs d.messages
    → After (λ _ d'. Enqueued new_id i xs d d') (enqueue now lane new_id i xs d)
unfolding enqueue
enqueue-Enqueued now lane new_id i [] d s = record {
  only_queue = refl;
  keeps = λ j h. h;
  all_queued = tt;
}
enqueue-Enqueued now lane new_id i (x ∷ xs) d s =
    let rows = queue_rows now (new_id i) (lane x.message_type) d.messages in
    let d₁ : Db = record d { queue = rows ++ d.queue } in
    After-throw_if (λ _ d'. Enqueued new_id i (x ∷ xs) d d') (queued (new_id i) d.queue) _ _ d
      λ _.
        After-imp (λ _ d'. Enqueued new_id (i + 1) xs d₁ d')
          (λ _ d'. Enqueued new_id i (x ∷ xs) d d') (enqueue now lane new_id (i + 1) xs d₁)
          (λ _ d' e. record {
            only_queue = e.only_queue;
            keeps = λ j h.
                e.keeps j
                  (queued-queue_rows now (new_id i) (lane x.message_type) d.messages d.queue j h);
            all_queued = (
              e.keeps (new_id i)
                  (stored-queued now (new_id i) (lane x.message_type) d.messages d.queue s.0),
              e.all_queued,
            );
          })
          (enqueue-Enqueued now lane new_id (i + 1) xs d₁ s.1)

has_message-add_rows :
    (now : ℕ) (cfg : AcceptConfig) (k : ℕ) (new_id : ℕ → ℕ) (i : ℕ) (xs : List Item)
    (ms : List Message) (j : ℕ)
    → has_message j ms ≡ true
    → has_message j (add_rows now cfg k new_id i xs ms) ≡ true
unfolding add_rows has_message accepted_row
has_message-add_rows now cfg k new_id i [] ms j h = h
has_message-add_rows now cfg k new_id i (x ∷ xs) ms j h =
    has_message-add_rows now cfg k new_id (i + 1) xs _ j (ground (arith, h))

pub add_rows-AllStored :
    (now : ℕ) (cfg : AcceptConfig) (k : ℕ) (new_id : ℕ → ℕ) (i : ℕ) (xs : List Item)
    (ms : List Message)
    → AllStored new_id i xs (add_rows now cfg k new_id i xs ms)
unfolding add_rows has_message accepted_row
add_rows-AllStored now cfg k new_id i [] ms = tt
add_rows-AllStored now cfg k new_id i (x ∷ xs) ms = (
  has_message-add_rows now cfg k new_id (i + 1) xs _ (new_id i) (ground arith),
  add_rows-AllStored now cfg k new_id (i + 1) xs _,
)
