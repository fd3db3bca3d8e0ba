-- ===== src/Dispatch/Claim/Exclusive.antt =====
-- A message that was claimed is not claimed again while the lease lasts, whatever happens to the tables
-- meanwhile, unless the claim's own worker puts the message back.
use sms_gateway.Common.{ℕ, ◌<◌, ◌≡◌, Bool, false, Option, List, All}
use sms_gateway.Common.Int.{ℤ}
use sms_gateway.Common.Text.{Text}
use sms_gateway.Store.Tables.{Db}
use sms_gateway.Store.Tx.{with_tx}
use sms_gateway.Sweeper.{expire, flag_sla, remove_orphans}
use sms_gateway.Sweeper.Lanes.{reassign_lanes}
use sms_gateway.Dlr.{Report, apply}
use sms_gateway.Dispatch.Job.{Outcome}
use sms_gateway.Dispatch.Claim.{claim}
use sms_gateway.Dispatch.Completer.{commit}
use sms_gateway.Dispatch.Claim.Held.{Held, returns}

module _ (until : ℕ) (ids : List ℕ) where
  -- Transactions at times before `until`, where no commit puts one of the messages back.
  pub data Meanwhile : Db → Db → Type 0 where
    done : (d : Db) → Meanwhile d d
    claims :
        (t duration n : ℕ) (locked : ℕ → Bool) (w lane : Text) (d d' : Db)
        → t < until
        → Meanwhile (claim t locked w duration lane n d).1 d'
        → Meanwhile d d'
    commits :
        (now sla : ℕ) (new_id : ℕ → ℕ) (w : Text) (batch : List Outcome) (d d' : Db)
        → All (λ o. returns until ids o ≡ false) batch
        → Meanwhile (with_tx (commit now new_id sla w batch) d).1 d'
        → Meanwhile d d'
    expires_due :
        (now limit : ℕ) (new_id : ℕ → ℕ) (locked : ℕ → Bool) (d d' : Db)
        → Meanwhile (with_tx (expire now new_id locked limit) d).1 d'
        → Meanwhile d d'
    flags_sla :
        (now sla limit : ℕ) (d d' : Db)
        → Meanwhile (with_tx (flag_sla now sla limit) d).1 d'
        → Meanwhile d d'
    removes_orphans :
        (now limit : ℕ) (locked : ℕ → Bool) (d d' : Db)
        → Meanwhile (with_tx (remove_orphans now locked limit) d).1 d'
        → Meanwhile d d'
    reassigns_lanes :
        (atoi : Text → Option ℤ) (hash : ℕ → ℕ) (itoa : ℕ → Text) (lanes limit : ℕ)
        (locked : ℕ → Bool) (d d' : Db)
        → Meanwhile (with_tx (reassign_lanes atoi hash itoa lanes locked limit) d).1 d'
        → Meanwhile d d'
    applies_reports :
        (now : ℕ) (reports : List Report) (d d' : Db)
        → Meanwhile (apply now reports d).1 d'
        → Meanwhile d d'
