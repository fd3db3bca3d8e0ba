-- ===== src/Examples/Accept.antt =====
-- Acceptance and a sequence of transactions on the tables of Rows, and the witnesses of their theorems.
use sms_gateway.Common.{ℕ, ◌+◌, ◌≡◌, refl, false, [], ◌∷◌, arith}
use sms_gateway.Common.Text.{Text, codes}
use sms_gateway.Segment.{gsm7}
use sms_gateway.Message.{normal}
use sms_gateway.Store.Tables.{Db}
use sms_gateway.Store.Tx.{with_tx}
use sms_gateway.Billing.{covers}
use sms_gateway.Invariant.{Inv}
use sms_gateway.Accept.{Item, AcceptConfig, insert, total_of}
use sms_gateway.Accept.Keeps.{insert_uncovered}
use sms_gateway.Dispatch.Claim.{claim}
use sms_gateway.Dispatch.Completer.{commit}
use sms_gateway.System.{Steps, accepts, claims, commits, done, next}
use sms_gateway.System.Safety.{Steps-Inv}
use sms_gateway.Examples.Rows.{tables, tables-Inv, worker, ends_rejected, of_id}

abbrev cfg : AcceptConfig
cfg = record {
  prices = record { normal_price = 7; express_price = 10 };
  max_segments = 10;
  normal_lanes = 4;
  normal_ttl = 3000000;
  express_ttl = 2000000;
}

abbrev request : Item
request = record {
  recipient = codes "+15550101";
  text = codes "ho";
  message_type = normal;
  ref = codes "r1";
  seg = record { encoding = gsm7; units = 2; segments = 1 };
  cost = 7;
}

abbrev hash : ℕ → ℕ
hash n = n

abbrev itoa : ℕ → Text
itoa n = (48 + n) ∷ []

abbrev new_id : ℕ → ℕ
new_id n = 200 + n

insert_uncovered_example :
    (with_tx (insert 60 cfg hash itoa new_id of_id 1 (record request { cost = 91 } ∷ [])) tables).1
    ≡ tables
unfolding covers total_of
insert_uncovered_example =
    insert_uncovered 60 cfg hash itoa new_id of_id 1 (record request { cost = 91 } ∷ []) tables refl

abbrev after_accept : Db
after_accept = (with_tx (insert 60 cfg hash itoa new_id of_id 1 (request ∷ [])) tables).1

abbrev after_claim : Db
after_claim = (claim 70 (λ i. false) worker 3000000 (codes "express") 10 after_accept).1

abbrev after_commit : Db
after_commit =
    (with_tx (commit 80 (λ n. 300 + n) 1000000 worker (ends_rejected ∷ [])) after_claim).1

abbrev history : Steps 50 tables 80 after_commit
history =
    next 50 60 80 tables after_accept after_commit
      (accepts 50 60 cfg hash itoa new_id of_id 1 (request ∷ []) tables (omega arith))
      (next 60 70 80 after_accept after_claim after_commit
        (claims 60 70 (λ i. false) worker 3000000 (codes "express") 10 after_accept (omega arith))
        (next 70 80 80 after_claim after_commit after_commit
          (commits 70 80 1000000 (λ n. 300 + n) worker (ends_rejected ∷ []) after_claim
            (omega arith))
          (done 80 after_commit)))

Steps-Inv_example : Inv 80 after_commit
Steps-Inv_example = Steps-Inv history tables-Inv
