-- ===== src/System/Safety.antt =====
-- Every sequence of transactions keeps the invariant.
use sms_gateway.Common.{ℕ, refl}
use sms_gateway.Store.Tables.{Db}
use sms_gateway.Invariant.{Inv}
use sms_gateway.Invariant.Sums.{sum_amounts, count_kind}
use sms_gateway.Billing.Charge.{charge_credits-Inv}
use sms_gateway.Accept.Keeps.{insert-Inv}
use sms_gateway.Dispatch.Claim.Lease.{claim-Inv}
use sms_gateway.Dispatch.Completer.Commit.{commit-Inv}
use sms_gateway.Sweeper.Keeps.{expire-Inv, flag_sla-Inv, remove_orphans-Inv}
use sms_gateway.Sweeper.Reassign.{reassign_lanes-Inv}
use sms_gateway.Customers.Keeps.{create-Inv, update-Inv, rotate_key-Inv}
use sms_gateway.Dlr.Laws.{apply-Inv}
use sms_gateway.System.{
  Step, Steps, accepts, charges, claims, commits, expires_due, flags_sla, removes_orphans,
  applies_reports, creates_customer, updates_customer, rotates_key, reassigns_lanes, empty, done,
  next,
}

Step-Inv : {now now' : ℕ} {d d' : Db} → Step now d now' d' → Inv now d → Inv now' d'
Step-Inv (accepts now now' cfg hash itoa new_id new_tx k xs d late) v =
    insert-Inv now now' cfg hash itoa new_id new_tx k xs d late v
Step-Inv (charges now now' new_id k x ref d late) v =
    charge_credits-Inv now now' new_id k x ref d late v
Step-Inv (claims now now' locked w duration lane n d late) v =
    claim-Inv now now' locked w duration lane n d late v
Step-Inv (commits now now' sla new_id w batch d late) v =
    commit-Inv now now' sla new_id w batch d late v
Step-Inv (expires_due now now' new_id locked limit d late) v =
    expire-Inv now now' new_id locked limit d late v
Step-Inv (flags_sla now now' sla limit d late) v = flag_sla-Inv now now' sla limit d late v
Step-Inv (removes_orphans now now' locked limit d late) v =
    remove_orphans-Inv now now' locked limit d late v
Step-Inv (applies_reports now now' reports d late ok) v = apply-Inv now now' reports d late ok v
Step-Inv (creates_customer now now' id new_tx hash_key key ref n d late) v =
    create-Inv now now' id new_tx hash_key key ref n d late v
Step-Inv (updates_customer now now' id name rps d late) v = update-Inv now now' id name rps d late v
Step-Inv (rotates_key now now' id hash_key key d late) v =
    rotate_key-Inv now now' id hash_key key d late v
Step-Inv (reassigns_lanes now now' atoi hash itoa lanes locked limit d late) v =
    reassign_lanes-Inv atoi hash itoa lanes now now' locked limit d late v

-- Whatever transactions run and in whatever order, at times that do not go back: tables at which the
-- invariant held before satisfy it after.
pub Steps-Inv : {now now' : ℕ} {d d' : Db} → Steps now d now' d' → Inv now d → Inv now' d'
Steps-Inv (done now d) v = v
Steps-Inv (next now now₁ now₂ d d₁ d₂ s rest) v = Steps-Inv rest (Step-Inv s v)

-- The empty tables satisfy it.
pub empty-Inv : (now : ℕ) → Inv now empty
unfolding sum_amounts count_kind
empty-Inv now = record {
  balanced = tt;
  settled = tt;
  distinct = tt;
  known_message = λ i h. (refl, refl);
  known_customer = λ k h. refl;
}

-- Whatever transactions run on the empty tables, and in whatever order, at times that do not go back: the
-- tables satisfy the invariant.
pub reachable-Inv : {now now' : ℕ} {d : Db} → Steps now empty now' d → Inv now' d
reachable-Inv {now} steps = Steps-Inv steps (empty-Inv now)
