-- ===== src/Billing/Credits.antt =====
-- The balance updates: every row keeps its id, and a balance moves by what the statement says.
use sms_gateway.Common.{
  Option, none, some, ℕ, ◌+◌, ◌≡◌, refl, ◌∙◌, List, [], ◌∷◌, map, ◌==◌, if◌then◌else◌, arith, All,
  All-map, All-imp, Bool-cases, inl, inr,
}
use sms_gateway.Common.Int.{ℤ, pos, ◌+ℤ◌, int_laws}
use sms_gateway.Store.Tables.{Customer, Db, has_customer}
use sms_gateway.Store.Tx.{After, After-bind, After-imp, After-throw_if}
use sms_gateway.Billing.{
  current_balance, balance_of, find_customer, credit, credit_all, credit_customer, overflows,
}
use sms_gateway.Billing.Refunds.{entry_sum}

pub has_customer-map :
    (k : ℕ) (f : Customer → Customer) (cs : List Customer)
    → ((c : Customer) → (f c).id ≡ c.id)
    → has_customer k (map f cs) ≡ has_customer k cs
unfolding has_customer
has_customer-map k f [] h = refl
has_customer-map k f (c ∷ cs) h = rw (h c, has_customer-map k f cs h)

-- Only the customers change, by their balances: where these were `f` of their ids they are `g`.
pub record Paid (f g : ℕ → ℤ) (d d' : Db) : Type 0 where
  pub same_messages : d'.messages ≡ d.messages
  pub same_transactions : d'.transactions ≡ d.transactions
  pub same_queue : d'.queue ≡ d.queue
  pub same_customer : (k : ℕ) → has_customer k d'.customers ≡ has_customer k d.customers
  pub paid :
      All (λ c. pos c.balance ≡ f c.id) d.customers → All (λ c. pos c.balance ≡ g c.id) d'.customers

-- `f` with `x` added at one customer.
abbrev pub plus_at : ℕ → ℕ → (ℕ → ℤ) → ℕ → ℤ
plus_at customer x f k = f k +ℤ pos (if customer == k then x else 0)

add_nat : (b x : ℕ) → pos b +ℤ pos x ≡ pos (b + x)
add_nat b x = omega int_laws

add_none : (a : ℤ) → a +ℤ pos 0 ≡ a
add_none a = omega int_laws

credited :
    (now customer x : ℕ) (f : ℕ → ℤ) (c : Customer)
    → pos c.balance ≡ f c.id
    → pos (credit_customer now customer x c).balance
      ≡ plus_at customer x f (credit_customer now customer x c).id
unfolding credit_customer
credited now customer x f c h = ground (arith, h, add_nat c.balance x, add_none (f c.id))

pub credit-Paid :
    (now customer x : ℕ) (f : ℕ → ℤ) (d : Db)
    → After (λ _ d'. Paid f (plus_at customer x f) d d') (credit now customer x d)
unfolding credit credit_customer
credit-Paid now customer x f d =
    After-throw_if (λ _ d'. Paid f (plus_at customer x f) d d') (overflows customer x d.customers) _
      _ d
      λ fits. record {
        same_messages = refl;
        same_transactions = refl;
        same_queue = refl;
        same_customer = λ k.
            has_customer-map k (credit_customer now customer x) d.customers (λ c. ground arith);
        paid = λ h.
            All-map (λ c. pos c.balance ≡ plus_at customer x f c.id)
              (credit_customer now customer x) d.customers
              (All-imp _ _ d.customers (credited now customer x f) h);
      }

Paid-trans : (f g h : ℕ → ℤ) (d d' d'' : Db) → Paid f g d d' → Paid g h d' d'' → Paid f h d d''
Paid-trans f g h d d' d'' p q = record {
  same_messages = q.same_messages ∙ p.same_messages;
  same_transactions = q.same_transactions ∙ p.same_transactions;
  same_queue = q.same_queue ∙ p.same_queue;
  same_customer = λ k. q.same_customer k ∙ p.same_customer k;
  paid = λ b. q.paid (p.paid b);
}

Paid-ext : (f g h : ℕ → ℤ) (d d' : Db) → ((k : ℕ) → g k ≡ h k) → Paid f g d d' → Paid f h d d'
Paid-ext f g h d d' e p = record {
  same_messages = p.same_messages;
  same_transactions = p.same_transactions;
  same_queue = p.same_queue;
  same_customer = p.same_customer;
  paid = λ b. All-imp _ _ d'.customers (λ c q. q ∙ e c.id) (p.paid b);
}

plus_entry :
    (f : ℕ → ℤ) (c x : ℕ) (es : List (ℕ × ℕ)) (k : ℕ)
    → plus_at c x f k +ℤ pos (entry_sum k es) ≡ f k +ℤ pos (entry_sum k ((c, x) ∷ es))
unfolding entry_sum
plus_entry f c x es k = elim (Bool-cases (c == k)) [
  | inl e ↦ rw e (omega int_laws)
  | inr e ↦ rw e (omega int_laws)
]

nothing_added : (f : ℕ → ℤ) (k : ℕ) → f k ≡ f k +ℤ pos (entry_sum k [])
unfolding entry_sum
nothing_added f k = omega int_laws

pub credit_all-Paid :
    (now : ℕ) (es : List (ℕ × ℕ)) (f : ℕ → ℤ) (d : Db)
    → After (λ _ d'. Paid f (λ k. f k +ℤ pos (entry_sum k es)) d d') (credit_all now es d)
unfolding credit_all
credit_all-Paid now [] f d = record {
  same_messages = refl;
  same_transactions = refl;
  same_queue = refl;
  same_customer = λ k. refl;
  paid = λ b. All-imp _ _ d.customers (λ c q. q ∙ nothing_added f c.id) b;
}
credit_all-Paid now ((c, x) ∷ es) f d =
    After-bind (λ _ d'. Paid f (plus_at c x f) d d')
      (λ _ d''. Paid f (λ k. f k +ℤ pos (entry_sum k ((c, x) ∷ es))) d d'') (credit now c x)
      (λ _. credit_all now es) d (credit-Paid now c x f d)
      λ _ d' p.
        After-imp
          (λ _ d''. Paid (plus_at c x f) (λ k. plus_at c x f k +ℤ pos (entry_sum k es)) d' d'')
          (λ _ d''. Paid f (λ k. f k +ℤ pos (entry_sum k ((c, x) ∷ es))) d d'')
          (credit_all now es d')
          (λ _ d'' q. Paid-ext f _ _ d d'' (plus_entry f c x es) (Paid-trans f _ _ d d' d'' p q))
          (credit_all-Paid now es (plus_at c x f) d')

balance_of_same : (o : Option Customer) (d : Db) → After (λ _ d'. d' ≡ d) (balance_of o d)
unfolding balance_of
balance_of_same none d = tt
balance_of_same (some c) d = refl

-- Reading a balance changes nothing.
pub current_balance_same : (k : ℕ) (d : Db) → After (λ _ d'. d' ≡ d) (current_balance k d)
unfolding current_balance
current_balance_same k d = balance_of_same (find_customer k d.customers) d
