-- ===== src/Accept/Attempts.antt =====
-- internal/message/accept.go: the loop of accept over insert and resolveExisting, on validated items.
-- Attempt n of the three draws its ids from `new_id n` and `new_tx n`.
use sms_gateway.Common.{arith, ℕ, zero, suc, ◌≤◌, List}
use sms_gateway.Common.Text.{Text}
use sms_gateway.Store.Tables.{Db}
use sms_gateway.Store.Tx.{
  Error, unique_violation, foreign_key_violation, check_violation, out_of_range,
  insufficient_credits, charge_conflict, customer_not_found, client_ref_taken, Result, ok, err,
  with_tx,
}
use sms_gateway.Invariant.{Inv}
use sms_gateway.Invariant.Update.{Inv-later}
use sms_gateway.Accept.{Item, AcceptConfig, Accepted, insert}
use sms_gateway.Accept.Keeps.{insert-Inv}
use sms_gateway.Accept.Replay.{Resolution, not_found, replayed, conflicts_at, resolve_existing}

pub data AcceptResult : Type 0 where
  recorded : Accepted → AcceptResult
  resolved : Resolution → AcceptResult
  refused_with : Error → AcceptResult
  -- "client_ref conflict did not settle"
  unsettled : AcceptResult

-- What an attempt returns, or `again` for the next one.
abbrev pub after_resolve : Resolution → Db → AcceptResult × Db → AcceptResult × Db
after_resolve not_found d again = again
after_resolve (replayed r) d again = (resolved (replayed r), d)
after_resolve (conflicts_at cs) d again = (resolved (conflicts_at cs), d)

abbrev pub after_insert :
    ℕ → List Item → Result Accepted → Db → AcceptResult × Db → AcceptResult × Db
after_insert customer items (ok a) d again = (recorded a, d)
after_insert customer items (err client_ref_taken) d again =
    after_resolve (resolve_existing customer items d.messages) d again
after_insert customer items (err e) d again = (refused_with e, d)

unfoldable pub attempts :
    ℕ
    → AcceptConfig
    → (ℕ → ℕ)
    → (ℕ → Text)
    → (ℕ → ℕ → ℕ)
    → (ℕ → ℕ → ℕ)
    → ℕ
    → List Item
    → ℕ
    → Db
    → AcceptResult × Db
attempts now cfg hash itoa new_id new_tx customer items zero d = (unsettled, d)
attempts now cfg hash itoa new_id new_tx customer items (suc n) d =
    let (r, d') = with_tx (insert now cfg hash itoa (new_id n) (new_tx n) customer items) d in
    let again = attempts now cfg hash itoa new_id new_tx customer items n d' in
    after_insert customer items r d' again

-- `accept`
unfoldable pub accept :
    ℕ
    → AcceptConfig
    → (ℕ → ℕ)
    → (ℕ → Text)
    → (ℕ → ℕ → ℕ)
    → (ℕ → ℕ → ℕ)
    → ℕ
    → List Item
    → Db
    → AcceptResult × Db
accept now cfg hash itoa new_id new_tx customer items d =
    attempts now cfg hash itoa new_id new_tx customer items 3 d

after_resolve_keeps :
    (P : Db → Type 0) (r : Resolution) (d : Db) (again : AcceptResult × Db)
    → P d
    → P again.1
    → P (after_resolve r d again).1
after_resolve_keeps P not_found d again p q = q
after_resolve_keeps P (replayed r) d again p q = p
after_resolve_keeps P (conflicts_at cs) d again p q = p

after_insert_keeps :
    (P : Db → Type 0) (k : ℕ) (xs : List Item) (r : Result Accepted) (d : Db)
    (again : AcceptResult × Db)
    → P d
    → P again.1
    → P (after_insert k xs r d again).1
after_insert_keeps P k xs (ok a) d again p q = p
after_insert_keeps P k xs (err unique_violation) d again p q = p
after_insert_keeps P k xs (err foreign_key_violation) d again p q = p
after_insert_keeps P k xs (err check_violation) d again p q = p
after_insert_keeps P k xs (err out_of_range) d again p q = p
after_insert_keeps P k xs (err insufficient_credits) d again p q = p
after_insert_keeps P k xs (err charge_conflict) d again p q = p
after_insert_keeps P k xs (err customer_not_found) d again p q = p
after_insert_keeps P k xs (err client_ref_taken) d again p q =
    after_resolve_keeps P (resolve_existing k xs d.messages) d again p q

attempts-Inv :
    (now : ℕ) (cfg : AcceptConfig) (hash : ℕ → ℕ) (itoa : ℕ → Text) (new_id new_tx : ℕ → ℕ → ℕ)
    (k : ℕ) (xs : List Item) (n : ℕ) (d : Db)
    → Inv now d
    → Inv now (attempts now cfg hash itoa new_id new_tx k xs n d).1
unfolding attempts
attempts-Inv now cfg hash itoa new_id new_tx k xs zero d v = v
attempts-Inv now cfg hash itoa new_id new_tx k xs (suc n) d v =
    let v' = insert-Inv now now cfg hash itoa (new_id n) (new_tx n) k xs d (omega arith) v in
    after_insert_keeps (Inv now) k xs
      (with_tx (insert now cfg hash itoa (new_id n) (new_tx n) k xs) d).0
      (with_tx (insert now cfg hash itoa (new_id n) (new_tx n) k xs) d).1 _ v'
      (attempts-Inv now cfg hash itoa new_id new_tx k xs n _ v')

-- A whole submission, with its attempts, replays and conflicts, keeps the invariant at any later time.
pub accept-Inv :
    (now now' : ℕ) (cfg : AcceptConfig) (hash : ℕ → ℕ) (itoa : ℕ → Text) (new_id new_tx : ℕ → ℕ → ℕ)
    (k : ℕ) (xs : List Item) (d : Db)
    → now ≤ now'
    → Inv now d
    → Inv now' (accept now' cfg hash itoa new_id new_tx k xs d).1
unfolding accept
accept-Inv now now' cfg hash itoa new_id new_tx k xs d late v =
    attempts-Inv now' cfg hash itoa new_id new_tx k xs 3 d (Inv-later now now' d late v)
