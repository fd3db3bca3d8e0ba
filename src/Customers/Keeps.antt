-- ===== src/Customers/Keeps.antt =====
-- Creating and changing customers keeps the invariant.
use sms_gateway.Common.{
  ℕ, ◌≤◌, ◌≡◌, refl, sym, ap, ◌∙◌, false, ◌&&◌, ◌||◌, Option, none, some, ◌∷◌, map, ◌==◌, arith,
  All-imp, All-map, Bool-cases, inl, inr,
}
use sms_gateway.Common.Int.{pos}
use sms_gateway.Common.Text.{Text}
use sms_gateway.Store.Tables.{Customer, Db, has_customer}
use sms_gateway.Store.Tx.{with_tx, with_tx_lem, After, After-bind, After-throw_if}
use sms_gateway.Billing.{charge_credits, find_customer}
use sms_gateway.Billing.Charge.{charge_credits-After}
use sms_gateway.Billing.Credits.{has_customer-map}
use sms_gateway.Invariant.{Inv}
use sms_gateway.Invariant.Sums.{sum_amounts}
use sms_gateway.Invariant.Update.{Inv-later}
use sms_gateway.Customers.{
  New, bad_name, bad_rate, is_bad, has_hash, customer_row, insert_customer, charge_initial, create,
  update_row, update, rotate_row, hash_taken, rotate_key, returned, display_prefix,
}

-- A change of customers that keeps their ids and balances keeps the invariant.
Inv-customers :
    (now : ℕ) (f : Customer → Customer) (d : Db)
    → ((c : Customer) → (f c).id ≡ c.id)
    → ((c : Customer) → (f c).balance ≡ c.balance)
    → Inv now d
    → Inv now (record d { customers = map f d.customers })
Inv-customers now f d same paid v = record {
  balanced = All-map _ f d.customers (
      All-imp _ _ d.customers
        (λ c h. ap pos (paid c) ∙ h ∙ ap (λ i. sum_amounts i d.transactions) (sym (same c)))
        v.balanced);
  settled = v.settled;
  distinct = v.distinct;
  known_message = v.known_message;
  known_customer = λ k h. v.known_customer k (sym (has_customer-map k f d.customers same) ∙ h);
}

-- A new customer without credits keeps it.
Inv-new :
    (now : ℕ) (c : Customer) (d : Db)
    → c.balance ≡ 0
    → has_customer c.id d.customers ≡ false
    → Inv now d
    → Inv now (record d { customers = c ∷ d.customers })
unfolding has_customer
Inv-new now c d poor fresh v = record {
  balanced = (ap pos poor ∙ sym (v.known_customer c.id fresh), v.balanced);
  settled = v.settled;
  distinct = v.distinct;
  known_message = v.known_message;
  known_customer = λ k h. v.known_customer k (ground (arith, h));
}

create_run :
    (now id : ℕ) (new_tx : ℕ → ℕ) (hash_key : Text → Text) (key ref : Text) (n : New) (d : Db)
    → Inv now d
    → After (λ _ d'. Inv now d') (create now id new_tx hash_key key ref n d)
unfolding create insert_customer charge_initial
create_run now id new_tx hash_key key ref n d v =
    let Q : Customer → Db → Type 0 = λ _ d'. Inv now d' in
    let c = customer_row now id n (hash_key key) (display_prefix key) in
    After-bind (λ _ d'. Inv now d') Q (insert_customer c) _ d (inserted c d refl v)
      λ _ d₁ v₁. elim (Bool-cases (n.initial_credits == 0)) [
        | inl e ↦ rw e v₁
        | inr e ↦ rw e (
            After-bind (λ _ d'. Inv now d') Q (charge_credits now new_tx id n.initial_credits ref) _
              d₁ (charge_credits-After now new_tx id n.initial_credits ref d₁ v₁) λ _ d₂ v₂. v₂)
      ]
  where
    inserted :
        (c : Customer) (d : Db)
        → c.balance ≡ 0
        → Inv now d
        → After (λ _ d'. Inv now d') (insert_customer c d)
    inserted c d poor v =
        let Q : Unit {0} → Db → Type 0 = λ _ d'. Inv now d' in
        After-throw_if Q (bad_name c.name || bad_rate c.rate_limit_rps) _ _ d λ _.
          After-throw_if Q (has_customer c.id d.customers) _ _ d λ fresh.
            After-throw_if Q (has_hash c.api_key_hash d.customers) _ _ d
              λ _. Inv-new now c d poor fresh v

-- Creating a customer, with initial credits or without, keeps the invariant at any later time, also if it
-- fails.
pub create-Inv :
    (now now' id : ℕ) (new_tx : ℕ → ℕ) (hash_key : Text → Text) (key ref : Text) (n : New) (d : Db)
    → now ≤ now'
    → Inv now d
    → Inv now' (with_tx (create now' id new_tx hash_key key ref n) d).1
create-Inv now now' id new_tx hash_key key ref n d late v =
    let v' = Inv-later now now' d late v in
    with_tx_lem (Inv now') (create now' id new_tx hash_key key ref n) d v'
      (create_run now' id new_tx hash_key key ref n d v')

returned-After :
    (P : Db → Type 0) (o : Option Customer) (d : Db) → P d → After (λ _ d'. P d') (returned o d)
returned-After P none d h = tt
returned-After P (some c) d h = h

pub update-Inv :
    (now now' id : ℕ) (name : Option Text) (rps : Option ℕ) (d : Db)
    → now ≤ now'
    → Inv now d
    → Inv now' (with_tx (update now' id name rps) d).1
unfolding update update_row
update-Inv now now' id name rps d late v =
    let v' = Inv-later now now' d late v in
    let d' : Db = record d { customers = map (update_row now' id name rps) d.customers } in
    with_tx_lem (Inv now') (update now' id name rps) d v' (
      After-throw_if (λ _ z. Inv now' z)
        (has_customer id d.customers && (is_bad bad_name name || is_bad bad_rate rps)) _ _ d
        λ _. returned-After (Inv now') (find_customer id d'.customers) d' (
          Inv-customers now' (update_row now' id name rps) d (λ c. ground arith) (λ c. ground arith)
            v'))

pub rotate_key-Inv :
    (now now' id : ℕ) (hash_key : Text → Text) (key : Text) (d : Db)
    → now ≤ now'
    → Inv now d
    → Inv now' (with_tx (rotate_key now' id hash_key key) d).1
unfolding rotate_key rotate_row
rotate_key-Inv now now' id hash_key key d late v =
    let v' = Inv-later now now' d late v in
    let f = rotate_row now' id (hash_key key) (display_prefix key) in
    let d' : Db = record d { customers = map f d.customers } in
    with_tx_lem (Inv now') (rotate_key now' id hash_key key) d v' (
      After-throw_if (λ _ z. Inv now' z)
        (has_customer id d.customers && hash_taken id (hash_key key) d.customers) _ _ d
        λ _.
          returned-After (Inv now') (find_customer id d'.customers) d'
            (Inv-customers now' f d (λ c. ground arith) (λ c. ground arith) v'))
