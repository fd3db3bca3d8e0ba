-- ===== src/System.antt =====
-- The transactions of all parts on the same tables, in any order and at times that do not go back.
pub mod Safety
use sms_gateway.Common.{ℕ, ◌≤◌, Bool, Option, List, []}
use sms_gateway.Common.Int.{ℤ}
use sms_gateway.Common.Text.{Text}
use sms_gateway.Store.Tables.{Db}
use sms_gateway.Store.Tx.{with_tx}
use sms_gateway.Billing.{charge_credits}
use sms_gateway.Accept.{Item, AcceptConfig, insert}
use sms_gateway.Dispatch.Job.{Outcome}
use sms_gateway.Dispatch.Claim.{claim}
use sms_gateway.Dispatch.Completer.{commit}
use sms_gateway.Sweeper.{expire, flag_sla, remove_orphans}
use sms_gateway.Sweeper.Lanes.{reassign_lanes}
use sms_gateway.Customers.{New, create, update, rotate_key}
use sms_gateway.Dlr.{Report, apply}
use sms_gateway.Dlr.Laws.{AllReported}

-- One transaction: the time and the tables of the last one, and its own.
pub data Step : ℕ → Db → ℕ → Db → Type 0 where
  accepts :
      (now now' : ℕ) (cfg : AcceptConfig) (hash : ℕ → ℕ) (itoa : ℕ → Text) (new_id new_tx : ℕ → ℕ)
      (customer : ℕ) (items : List Item) (d : Db)
      → now ≤ now'
      → Step now d now' (with_tx (insert now' cfg hash itoa new_id new_tx customer items) d).1
  charges :
      (now now' : ℕ) (new_id : ℕ → ℕ) (customer amount : ℕ) (client_ref : Text) (d : Db)
      → now ≤ now'
      → Step now d now' (with_tx (charge_credits now' new_id customer amount client_ref) d).1
  claims :
      (now now' : ℕ) (locked : ℕ → Bool) (w : Text) (duration : ℕ) (lane : Text) (n : ℕ) (d : Db)
      → now ≤ now'
      → Step now d now' (claim now' locked w duration lane n d).1
  commits :
      (now now' sla : ℕ) (new_id : ℕ → ℕ) (w : Text) (batch : List Outcome) (d : Db)
      → now ≤ now'
      → Step now d now' (with_tx (commit now' new_id sla w batch) d).1
  expires_due :
      (now now' : ℕ) (new_id : ℕ → ℕ) (locked : ℕ → Bool) (limit : ℕ) (d : Db)
      → now ≤ now'
      → Step now d now' (with_tx (expire now' new_id locked limit) d).1
  flags_sla :
      (now now' sla limit : ℕ) (d : Db)
      → now ≤ now'
      → Step now d now' (with_tx (flag_sla now' sla limit) d).1
  removes_orphans :
      (now now' : ℕ) (locked : ℕ → Bool) (limit : ℕ) (d : Db)
      → now ≤ now'
      → Step now d now' (with_tx (remove_orphans now' locked limit) d).1
  applies_reports :
      (now now' : ℕ) (reports : List Report) (d : Db)
      → now ≤ now'
      → AllReported reports
      → Step now d now' (apply now' reports d).1
  creates_customer :
      (now now' id : ℕ) (new_tx : ℕ → ℕ) (hash_key : Text → Text) (key ref : Text) (n : New)
      (d : Db)
      → now ≤ now'
      → Step now d now' (with_tx (create now' id new_tx hash_key key ref n) d).1
  updates_customer :
      (now now' id : ℕ) (name : Option Text) (rps : Option ℕ) (d : Db)
      → now ≤ now'
      → Step now d now' (with_tx (update now' id name rps) d).1
  rotates_key :
      (now now' id : ℕ) (hash_key : Text → Text) (key : Text) (d : Db)
      → now ≤ now'
      → Step now d now' (with_tx (rotate_key now' id hash_key key) d).1
  reassigns_lanes :
      (now now' : ℕ) (atoi : Text → Option ℤ) (hash : ℕ → ℕ) (itoa : ℕ → Text) (lanes : ℕ)
      (locked : ℕ → Bool) (limit : ℕ) (d : Db)
      → now ≤ now'
      → Step now d now' (with_tx (reassign_lanes atoi hash itoa lanes locked limit) d).1

-- The tables after the migrations.
abbrev pub empty : Db
empty = record { customers = []; messages = []; transactions = []; queue = [] }

-- A sequence of transactions.
pub data Steps : ℕ → Db → ℕ → Db → Type 0 where
  done : (now : ℕ) (d : Db) → Steps now d now d
  next :
      (now now₁ now₂ : ℕ) (d d₁ d₂ : Db)
      → Step now d now₁ d₁
      → Steps now₁ d₁ now₂ d₂
      → Steps now d now₂ d₂
