-- ===== src/Queries/Pages.antt =====
-- Reading the listings page after page, and that customers see their own messages only.
use sms_gateway.Common.{
  ℕ, suc, ◌<◌, ◌≡◌, refl, ap, ◌∙◌, true, false, ◌&&◌, List, [], ◌∷◌, keep, length, arith, All,
  All-imp, All-zip, ◌==◌, if◌then◌else◌,
}
use sms_gateway.Message.{Message}
use sms_gateway.Store.Tables.{Db, has_message}
use sms_gateway.Invariant.{Distinct}
use sms_gateway.Paging.{sort_desc, page_of, read_pages}
use sms_gateway.Paging.Sorted.{Keyed}
use sms_gateway.Paging.Complete.{read_pages_complete}
use sms_gateway.Queries.{row, no_row, exactly_one}
use sms_gateway.Queries.Messages.{Filter, get, list, selects}
use sms_gateway.Queries.Accounts.{
  TransactionFilter, list_transactions, selects_transaction, list_customers,
}

-- If no two messages share an id and none has the nil id: a client that reads a customer's messages with
-- any filters and a page size of one or more, each page from the last id of the one before, for more
-- pages than the table has messages at most, gets exactly the messages that the filters select, each
-- once and the newest id first.
pub list_complete :
    (customer n fuel : ℕ) (f : Filter) (d : Db)
    → Keyed (λ m. m.id) d.messages
    → f.limit ≡ suc n
    → length d.messages < fuel
    → read_pages (λ m. m.id) (λ after. list customer (record f { after = after }) d) fuel 0
      ≡ sort_desc (λ m. m.id) (keep (selects customer f) d.messages)
unfolding list selects
list_complete customer n fuel f d u e h =
    read_pages_complete (λ m. m.id) (selects customer f) d.messages u
      (λ after. list customer (record f { after = after }) d) n
      (λ after. ap (λ l. page_of (λ m. m.id) (selects customer f) after l d.messages) e) fuel h

-- So for a customer's transactions.
pub list_transactions_complete :
    (customer n fuel : ℕ) (f : TransactionFilter) (d : Db)
    → Keyed (λ t. t.id) d.transactions
    → f.limit ≡ suc n
    → length d.transactions < fuel
    → read_pages
        (λ t. t.id)
        (λ after. list_transactions customer (record f { after = after }) d)
        fuel
        0
      ≡ sort_desc (λ t. t.id) (keep (selects_transaction customer f) d.transactions)
unfolding list_transactions selects_transaction
list_transactions_complete customer n fuel f d u e h =
    read_pages_complete (λ t. t.id) (selects_transaction customer f) d.transactions u
      (λ after. list_transactions customer (record f { after = after }) d) n
      (λ after.
        ap (λ l. page_of (λ t. t.id) (selects_transaction customer f) after l d.transactions) e)
      fuel h

keep-true : {A : Type 0} (xs : List A) → keep (λ x. true) xs ≡ xs
keep-true [] = refl
keep-true (x ∷ xs) = ap (λ r. x ∷ r) (keep-true xs)

-- And for all customers.
list_customers_complete :
    (n fuel : ℕ) (d : Db)
    → Keyed (λ c. c.id) d.customers
    → length d.customers < fuel
    → read_pages (λ c. c.id) (λ after. list_customers after (suc n) d) fuel 0
      ≡ sort_desc (λ c. c.id) d.customers
unfolding list_customers
list_customers_complete n fuel d u h =
    read_pages_complete (λ c. c.id) (λ c. true) d.customers u
      (λ after. list_customers after (suc n) d) n (λ after. refl) fuel h
    ∙ ap (sort_desc (λ c. c.id)) (keep-true d.customers)

absent_none :
    (k i : ℕ) (ms : List Message)
    → has_message i ms ≡ false
    → keep (λ m. m.id == i && m.customer_id == k) ms ≡ []
unfolding has_message
absent_none k i [] h = refl
absent_none k i (m ∷ ms) h = ground (arith, h, absent_none k i ms)

others : (i : ℕ) (ms : List Message) → has_message i ms ≡ false → All (λ x. (i == x.id) ≡ false) ms
unfolding has_message
others i [] h = tt
others i (m ∷ ms) h = (ground (arith, h), others i ms (ground (arith, h)))

Own : ℕ → List Message → Message → Type 0
Own k ms m =
    keep (λ x. x.id == m.id && x.customer_id == k) ms ≡ (if m.customer_id == k then m ∷ [] else [])

Own-only : (k : ℕ) (ms : List Message) → Distinct ms → All (Own k ms) ms
unfolding Own
Own-only k [] u = tt
Own-only k (m ∷ ms) u = (
  ground (arith, absent_none k m.id ms u.0),
  All-zip (λ x. (m.id == x.id) ≡ false) (Own k ms) (Own k (m ∷ ms)) ms
      (λ x e h. ground (arith, e, h)) (others m.id ms u.0) (Own-only k ms u.1),
)

-- In tables with distinct message ids, a customer's query for the id of a stored message returns that
-- message if it is the customer's and nothing if it is another customer's; a query for any other id
-- returns nothing.
pub get_own :
    (k : ℕ) (d : Db)
    → Distinct d.messages
    → All (λ m. get k m.id d ≡ (if m.customer_id == k then row m else no_row)) d.messages
      × ((i : ℕ) → has_message i d.messages ≡ false → get k i d ≡ no_row)
unfolding get exactly_one Own
get_own k d u = (
  All-imp (Own k d.messages) _ d.messages (λ m h. ground (arith, h)) (Own-only k d.messages u),
  λ i h. rw (absent_none k i d.messages h) refl,
)
