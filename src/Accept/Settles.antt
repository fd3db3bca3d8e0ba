-- ===== src/Accept/Settles.antt =====
-- internal/message/accept.go: when no other transaction comes between, the loop of accept settles.
use sms_gateway.Common.{
  ℕ, ◌+◌, ◌≡◌, ◌⊎◌, inl, inr, refl, ap, ◌∙◌, Bool, true, ◌&&◌, ◌||◌, not, Option, none, some, List,
  [], ◌∷◌, any, map, ltb, length, ◌==◌, arith, All, All-zip, Bool-cases,
}
use sms_gateway.Common.Text.{Text, text_eq}
use sms_gateway.Message.{Message, MessageType}
use sms_gateway.Store.Tables.{
  debit, Customer, Db, null_text, is_null, has_message, has_customer, queued,
}
use sms_gateway.Store.Tx.{
  Error, unique_violation, foreign_key_violation, check_violation, out_of_range,
  insufficient_credits, charge_conflict, customer_not_found, client_ref_taken, Ends, Ends-bind,
  Ends-throw_if,
}
use sms_gateway.Billing.{
  Debit, has_id, has_kind, insert_debit, insert_debits, record_debits, covers, current_balance,
  balance_of, find_customer, debit_balance, debit_customer,
}
use sms_gateway.Accept.{
  Item, AcceptConfig, Accepted, accepted_row, has_ref, refused, insert_message, insert_messages,
  debits_of, enqueue, finish, total_of, lane_of, insert,
}

-- What must hold for a run to end with client_ref_taken.
abbrev pub Blames : Type 0 → Error → Type 0
Blames B unique_violation = Unit
Blames B foreign_key_violation = Unit
Blames B check_violation = Unit
Blames B out_of_range = Unit
Blames B insufficient_credits = Unit
Blames B charge_conflict = Unit
Blames B customer_not_found = Unit
Blames B client_ref_taken = B

abbrev Any : {A : Type 0} → A → Db → Type 0
Any a d = Unit

-- Another item's client_ref.
abbrev pub other_ref : Item → Item → Bool
other_ref x y = is_null (null_text y.ref) || not (text_eq x.ref y.ref)

-- No two items share a client_ref.
abbrev pub RefsDiffer : List Item → Type 0
RefsDiffer [] = Unit
RefsDiffer (x ∷ xs) = All (λ y. other_ref x y ≡ true) xs × RefsDiffer xs

-- The customer's messages that `has_ref` finds for an item.
abbrev pub taken : ℕ → List Message → Item → Bool
taken k ms x = has_ref k (null_text x.ref) ms

taken_more :
    (now : ℕ) (cfg : AcceptConfig) (k id : ℕ) (x y : Item) (ms : List Message)
    → other_ref x y ≡ true
    → taken k (accepted_row now cfg k id x ∷ ms) y ≡ taken k ms y
unfolding accepted_row
taken_more now cfg k id x y ms h = go x.ref y.ref h
  where
    go :
        (r s : Text)
        → (is_null (null_text s) || not (text_eq r s)) ≡ true
        → has_ref k
            (null_text s)
            (record (accepted_row now cfg k id x) { client_ref = null_text r } ∷ ms)
          ≡ has_ref k (null_text s) ms
    go r [] h = refl
    go [] (c ∷ s) h = ground arith
    go (b ∷ r) (c ∷ s) h = ground (arith, h)

All-same : (ms : List Message) (k : ℕ) (xs : List Item) → All (λ y. taken k ms y ≡ taken k ms y) xs
All-same ms k [] = tt
All-same ms k (x ∷ xs) = (refl, All-same ms k xs)

-- An item whose client_ref was taken before `ms` grew.
agree :
    (now : ℕ) (cfg : AcceptConfig) (k id : ℕ) (x : Item) (xs : List Item)
    (old ms ms' : List Message)
    → All (λ y. other_ref x y ≡ true) xs
    → ms' ≡ accepted_row now cfg k id x ∷ ms
    → All (λ y. taken k ms y ≡ taken k old y) xs
    → All (λ y. taken k ms' y ≡ taken k old y) xs
agree now cfg k id x xs old ms ms' differ e h =
    All-zip (λ y. other_ref x y ≡ true) (λ y. taken k ms y ≡ taken k old y) _ xs
      (λ y o a. ap (λ l. taken k l y) e ∙ taken_more now cfg k id x y ms o ∙ a) differ h

-- Rows are skipped only for client_refs that were taken before.
Skips : ℕ → List Message → List Item → ℕ → Db → Type 0
Skips k old xs n d = (n ≡ length xs) ⊎ (any (taken k old) xs ≡ true)

OneSkips : ℕ → AcceptConfig → ℕ → ℕ → Item → Db → Bool → Db → Type 0
OneSkips now cfg k id x d one d' =
    (one ≡ not (taken k d.messages x))
    × (one ≡ true → d'.messages ≡ accepted_row now cfg k id x ∷ d.messages)

module _ (B : Type 0) (now : ℕ) (cfg : AcceptConfig) (k : ℕ) where
  insert_message-OneSkips :
      (id : ℕ) (x : Item) (d : Db)
      → Ends (Blames B) (OneSkips now cfg k id x d) (insert_message now cfg k id x d)
  unfolding insert_message OneSkips
  insert_message-OneSkips id x d =
      Ends-throw_if (Blames B) (OneSkips now cfg k id x d) (refused x) check_violation _ d (λ _. tt)
        λ _.
          Ends-throw_if (Blames B) (OneSkips now cfg k id x d)
            (not (has_ref k (null_text x.ref) d.messages) && has_message id d.messages)
            unique_violation _ d (λ _. tt)
            λ _. elim (Bool-cases (has_ref k (null_text x.ref) d.messages)) [
              | inl e ↦ rw e (refl, λ h. cc)
              | inr e ↦ rw e (refl, λ h. refl)
            ]

  insert_messages-Any :
      (new_id : ℕ → ℕ) (i : ℕ) (xs : List Item) (d : Db)
      → Ends (Blames B) (λ _ d'. Unit) (insert_messages now cfg k new_id i xs d)
  unfolding insert_messages
  insert_messages-Any new_id i [] d = tt
  insert_messages-Any new_id i (x ∷ xs) d =
      Ends-bind (Blames B) (OneSkips now cfg k (new_id i) x d) (λ _ d'. Unit)
        (insert_message now cfg k (new_id i) x) _ d (insert_message-OneSkips (new_id i) x d)
        λ one d₁ _.
          Ends-bind (Blames B) (λ _ d'. Unit) (λ _ d'. Unit)
            (insert_messages now cfg k new_id (i + 1) xs) _ d₁
            (insert_messages-Any new_id (i + 1) xs d₁) λ n d₂ _. tt

  insert_messages-Skips :
      (old : List Message) (new_id : ℕ → ℕ) (i : ℕ) (xs : List Item) (d : Db)
      → RefsDiffer xs
      → All (λ y. taken k d.messages y ≡ taken k old y) xs
      → Ends (Blames B) (Skips k old xs) (insert_messages now cfg k new_id i xs d)
  unfolding insert_messages Skips OneSkips
  insert_messages-Skips old new_id i [] d r a = inl refl
  insert_messages-Skips old new_id i (x ∷ xs) d r a =
      Ends-bind (Blames B) (OneSkips now cfg k (new_id i) x d) (Skips k old (x ∷ xs))
        (insert_message now cfg k (new_id i) x) _ d (insert_message-OneSkips (new_id i) x d)
        λ one d₁ h. elim (Bool-cases one) [
          | inl e ↦
              let a' : All (λ y. taken k d₁.messages y ≡ taken k old y) xs =
                agree now cfg k (new_id i) x xs old d.messages d₁.messages r.0 (h.1 e) a.1 in
              Ends-bind (Blames B) (Skips k old xs) (Skips k old (x ∷ xs))
                (insert_messages now cfg k new_id (i + 1) xs) _ d₁
                (insert_messages-Skips old new_id (i + 1) xs d₁ r.1 a')
                λ n d₂ s. ground (arith, e, s)
          | inr e ↦
              let blamed : taken k old x ≡ true = ground (arith, e, h.0, a.0) in
              Ends-bind (Blames B) (λ _ d'. Unit) (Skips k old (x ∷ xs))
                (insert_messages now cfg k new_id (i + 1) xs) _ d₁
                (insert_messages-Any new_id (i + 1) xs d₁) λ n d₂ _. inr (rw blamed refl)
        ]

  one_debit :
      (id : ℕ) (x : Debit) (d : Db) → Ends (Blames B) (λ _ d'. Unit) (insert_debit now id k x d)
  unfolding insert_debit
  one_debit id x d =
      let P : Unit {0} → Db → Type 0 = λ _ d'. Unit in
      Ends-throw_if (Blames B) P (x.amount == 0) check_violation _ d (λ _. tt)
        λ _.
          Ends-throw_if (Blames B) P (has_id id d.transactions) unique_violation _ d (λ _. tt)
            λ _.
              Ends-throw_if (Blames B) P (has_kind debit x.message_id d.transactions)
                unique_violation _ d (λ _. tt)
                λ _.
                  Ends-throw_if (Blames B) P (not (has_customer k d.customers))
                    foreign_key_violation _ d (λ _. tt)
                    λ _.
                      Ends-throw_if (Blames B) P (not (has_message x.message_id d.messages))
                        foreign_key_violation _ d (λ _. tt) λ _. tt

  insert_debits-Ends :
      (new_id : ℕ → ℕ) (i : ℕ) (xs : List Debit) (d : Db)
      → Ends (Blames B) (λ _ d'. Unit) (insert_debits now new_id k i xs d)
  unfolding insert_debits
  insert_debits-Ends new_id i [] d = tt
  insert_debits-Ends new_id i (x ∷ xs) d =
      Ends-bind (Blames B) (λ _ d'. Unit) (λ _ d'. Unit) (insert_debit now (new_id i) k x) _ d
        (one_debit (new_id i) x d) λ _ d' _. insert_debits-Ends new_id (i + 1) xs d'

  enqueue-Ends :
      (lane : MessageType → Text) (new_id : ℕ → ℕ) (i : ℕ) (xs : List Item) (d : Db)
      → Ends (Blames B) (λ _ d'. Unit) (enqueue now lane new_id i xs d)
  unfolding enqueue
  enqueue-Ends lane new_id i [] d = tt
  enqueue-Ends lane new_id i (x ∷ xs) d =
      Ends-throw_if (Blames B) (λ _ d'. Unit) (queued (new_id i) d.queue) unique_violation _ d
        (λ _. tt) λ _. enqueue-Ends lane new_id (i + 1) xs _

  balance-Ends :
      (amount : ℕ) (d : Db) → Ends (Blames B) (λ _ d'. Unit) (debit_balance now k amount d)
  unfolding debit_balance current_balance
  balance-Ends amount d =
      Ends-throw_if (Blames B) (λ _ d'. Unit) (not (covers k amount d.customers))
        insufficient_credits _ d (λ _. tt)
        λ _. found (find_customer k (map (debit_customer now k amount) d.customers)) _
    where
      found : (c : Option Customer) (d' : Db) → Ends (Blames B) (λ _ d'. Unit) (balance_of c d')
      found none d' = tt
      found (some c) d' = tt

  finish-Ends :
      (lane : MessageType → Text) (new_id : ℕ → ℕ) (xs : List Item) (d : Db)
      → Ends (Blames B) (λ _ d'. Unit) (finish now lane new_id k xs d)
  unfolding finish
  finish-Ends lane new_id xs d =
      Ends-bind (Blames B) (λ _ d'. Unit) (λ _ d'. Unit) (enqueue now lane new_id 0 xs) _ d
        (enqueue-Ends lane new_id 0 xs d)
        λ _ d₁ _.
          Ends-bind (Blames B) (λ _ d'. Unit) (λ _ d'. Unit) (debit_balance now k (total_of xs)) _
            d₁ (balance-Ends (total_of xs) d₁) λ _ d₂ _. tt

-- `insert` finds a client_ref taken only if it was taken before.
pub insert-Blames :
    (now : ℕ) (cfg : AcceptConfig) (hash : ℕ → ℕ) (itoa : ℕ → Text) (new_id new_tx : ℕ → ℕ) (k : ℕ)
    (xs : List Item) (d : Db)
    → RefsDiffer xs
    → Ends
        (Blames (any (taken k d.messages) xs ≡ true))
        (λ _ d'. Unit)
        (insert now cfg hash itoa new_id new_tx k xs d)
unfolding insert record_debits Skips
insert-Blames now cfg hash itoa new_id new_tx k xs d r =
    let B : Type 0 = any (taken k d.messages) xs ≡ true in
    let P : Accepted → Db → Type 0 = λ _ d'. Unit in
    Ends-bind (Blames B) (Skips k d.messages xs) P (insert_messages now cfg k new_id 0 xs) _ d
      (insert_messages-Skips B now cfg k d.messages new_id 0 xs d r (All-same d.messages k xs))
      λ n d₁ s.
        Ends-throw_if (Blames B) P (ltb 0 n && not (has_customer k d₁.customers)) customer_not_found
          _ d₁ (λ _. tt)
          λ _.
            Ends-throw_if (Blames B) P (ltb n (length xs)) client_ref_taken _ d₁ (λ e. blame n s e)
              λ _.
                Ends-bind (Blames B) (λ _ d'. Unit) P
                  (insert_debits now new_tx k 0 (debits_of new_id 0 xs)) _ d₁
                  (insert_debits-Ends B now cfg k new_tx 0 (debits_of new_id 0 xs) d₁)
                  λ _ d₂ _.
                    finish-Ends B now cfg k (λ t. lane_of hash itoa t k cfg.normal_lanes) new_id xs
                      d₂
  where
    blame :
        (n : ℕ)
        → (n ≡ length xs) ⊎ (any (taken k d.messages) xs ≡ true)
        → ltb n (length xs) ≡ true
        → any (taken k d.messages) xs ≡ true
    blame n (inl e) h = ground (arith, e, h)
    blame n (inr b) h = b
