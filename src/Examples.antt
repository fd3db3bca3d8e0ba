-- ===== src/Examples.antt =====
-- Tables that the invariant describes, and the witnesses of the theorems about transactions.
pub mod Rows
mod Accept
mod Submit
mod Service
mod Report
mod Processes
use sms_gateway.Common.{ℕ, ◌<◌, Bool, true, false, Option, none, some, List, [], ◌∷◌, arith}
use sms_gateway.Common.Text.{Text, codes}
use sms_gateway.Store.Tables.{Db}
use sms_gateway.Store.Tx.{After, with_tx}
use sms_gateway.Billing.{Refund, apply_refunds, charge_credits}
use sms_gateway.Billing.Charge.{charge_credits-Inv}
use sms_gateway.Billing.Apply.{Refunded, apply_refunds-Refunded}
use sms_gateway.Invariant.{Inv}
use sms_gateway.Dispatch.Job.{Job, Outcome}
use sms_gateway.Dispatch.Claim.{claim}
use sms_gateway.Dispatch.Claim.Lease.{claim-Inv}
use sms_gateway.Dispatch.Completer.{commit}
use sms_gateway.Dispatch.Completer.Commit.{commit-Inv}
use sms_gateway.Sweeper.{expire, flag_sla, remove_orphans}
use sms_gateway.Sweeper.Keeps.{expire-Inv, flag_sla-Inv, remove_orphans-Inv}
use sms_gateway.Examples.Rows.{tables, tables-Inv, worker, ends_rejected, of_id}

abbrev lane : Text
lane = codes "express"

abbrev unlocked : ℕ → Bool
unlocked i = false

abbrev one_refund : List Refund
one_refund = record { customer_id = 1; message_id = 5; amount = 10 } ∷ []

apply_refunds-Refunded_example :
    After (λ _ d'. Refunded one_refund tables d') (apply_refunds 60 of_id one_refund tables)
apply_refunds-Refunded_example = apply_refunds-Refunded 60 of_id one_refund tables

commit-Inv_example : Inv 60 (with_tx (commit 60 of_id 1000000 worker (ends_rejected ∷ [])) tables).1
commit-Inv_example =
    commit-Inv 50 60 1000000 of_id worker (ends_rejected ∷ []) tables (omega arith) tables-Inv

-- The tables after the first claim, and after another one that the worker's commit follows.
abbrev first_claim : Db
first_claim = (claim 60 unlocked worker 3000000 lane 10 tables).1

abbrev second_claim : Db
second_claim = (claim 70 unlocked (codes "w3") 3000000 lane 10 first_claim).1

abbrev later_tables : Db
later_tables = (with_tx (commit 80 of_id 1000000 worker (ends_rejected ∷ [])) second_claim).1
