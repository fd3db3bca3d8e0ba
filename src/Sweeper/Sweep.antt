-- ===== src/Sweeper/Sweep.antt =====
-- internal/sweeper/sweeper.go: one sweep runs the tasks in order, each in a transaction of its own that
-- holds the task's advisory lock. `held` says which locks other transactions hold, `at` when each
-- transaction begins and `ids` what identifiers it draws. What the tasks publish as metrics is left out.
use sms_gateway.Common.{
  ℕ, ◌+◌, ◌≤◌, Bool, Option, none, some, List, [], ◌∷◌, if◌then◌else◌, arith, Bool-cases, inl, inr,
  ◌==◌,
}
use sms_gateway.Common.Int.{ℤ}
use sms_gateway.Common.Text.{Text}
use sms_gateway.Store.Tables.{Db}
use sms_gateway.Store.Tx.{Error, Tx, Result, ok, err, pure, with_tx}
use sms_gateway.Invariant.{Inv}
use sms_gateway.Invariant.Update.{Inv-later}
use sms_gateway.Sweeper.{expire, flag_sla, remove_orphans}
use sms_gateway.Sweeper.Keeps.{expire-Inv, flag_sla-Inv, remove_orphans-Inv}
use sms_gateway.Sweeper.Lanes.{Worker, reassign_lanes, remove_stale_workers}
use sms_gateway.Sweeper.Reassign.{reassign_lanes-Inv}

pub record SweeperConfig : Type 0 where
  pub batch_size : ℕ
  pub normal_lanes : ℕ
  pub express_sla : ℕ

abbrev pub default_batch_size : ℕ
default_batch_size = 1000

-- `New`; a batch size below zero is not distinguished from zero.
unfoldable pub new_sweeper : SweeperConfig → SweeperConfig
new_sweeper cfg =
    if cfg.batch_size == 0 then record cfg { batch_size = default_batch_size } else cfg

-- `Result`
pub record Swept : Type 0 where
  pub expired : ℕ
  pub flagged : ℕ
  pub orphans : ℕ
  pub reassigned : ℕ
  pub workers : ℕ

pub data Task : Type 0 where
  task_expire task_flag_sla task_orphans task_lanes task_workers : Task

abbrev pub tasks : List Task
tasks = task_expire ∷ task_flag_sla ∷ task_orphans ∷ task_lanes ∷ task_workers ∷ []

abbrev pub count_task : Task → ℕ → Swept → Swept
count_task task_expire n r = record r { expired = n }
count_task task_flag_sla n r = record r { flagged = n }
count_task task_orphans n r = record r { orphans = n }
count_task task_lanes n r = record r { reassigned = n }
count_task task_workers n r = record r { workers = n }

-- The tables and the table `workers`.
pub record Tables : Type 0 where
  pub db : Db
  pub worker_rows : List Worker

abbrev add_count : ℕ → Result ℕ → Result ℕ
add_count n (ok m) = ok (m + n)
add_count n (err e) = err e

abbrev after_task :
    Task
    → Swept
    → Result ℕ × Tables
    → (Swept → Tables → Option Error × (Swept × Tables))
    → Option Error × (Swept × Tables)
after_task t res (ok n, x) next = next (count_task t n res) x
after_task t res (err e, x) next = (some e, (res, x))

module _ (cfg : SweeperConfig) (atoi : Text → Option ℤ) (hash : ℕ → ℕ) (itoa : ℕ → Text)
    (held : Task → Bool) (at : Task → ℕ) (ids : Task → ℕ → ℕ) (locked : Task → ℕ → Bool) where
  -- The statements of a task on the tables of the invariant.
  unfoldable pub run_task : Task → Tx ℕ
  run_task task_expire =
      expire (at task_expire) (ids task_expire) (locked task_expire) cfg.batch_size
  run_task task_flag_sla = flag_sla (at task_flag_sla) cfg.express_sla cfg.batch_size
  run_task task_orphans = remove_orphans (at task_orphans) (locked task_orphans) cfg.batch_size
  run_task task_lanes =
      reassign_lanes atoi hash itoa cfg.normal_lanes (locked task_lanes) cfg.batch_size
  run_task task_workers = pure 0

  -- `removeStaleWorkers` is the one task on the other table.
  abbrev pub swept_workers : Task → List Worker → ℕ × List Worker
  swept_workers task_workers ws = remove_stale_workers (at task_workers) ws
  swept_workers _ ws = (0, ws)

  -- `locked`: nothing is done if another transaction holds the lock.
  unfoldable pub run_locked : Task → Tables → Result ℕ × Tables
  unfolding run_task
  run_locked t x =
      let (r, d) = with_tx (run_task t) x.db in
      let (n, ws) = swept_workers t x.worker_rows in
      if held t then (ok 0, x) else (add_count n r, record { db = d; worker_rows = ws })

  -- The loop of `Sweep`: the first error ends it.
  unfoldable pub sweep_from : List Task → Swept → Tables → Option Error × (Swept × Tables)
  unfolding run_locked
  sweep_from [] res x = (none, (res, x))
  sweep_from (t ∷ ts) res x = after_task t res (run_locked t x) (λ res' x'. sweep_from ts res' x')

  unfoldable pub sweep : Tables → Option Error × (Swept × Tables)
  sweep =
      sweep_from tasks
        (record { expired = 0; flagged = 0; orphans = 0; reassigned = 0; workers = 0 })

  run_task-Inv :
      (now : ℕ) (t : Task) (d : Db) → now ≤ at t → Inv now d → Inv (at t) (with_tx (run_task t) d).1
  unfolding run_task with_tx
  run_task-Inv now task_expire d late v =
      expire-Inv now (at task_expire) (ids task_expire) (locked task_expire) cfg.batch_size d late v
  run_task-Inv now task_flag_sla d late v =
      flag_sla-Inv now (at task_flag_sla) cfg.express_sla cfg.batch_size d late v
  run_task-Inv now task_orphans d late v =
      remove_orphans-Inv now (at task_orphans) (locked task_orphans) cfg.batch_size d late v
  run_task-Inv now task_lanes d late v =
      reassign_lanes-Inv atoi hash itoa cfg.normal_lanes now (at task_lanes) (locked task_lanes)
        cfg.batch_size d late v
  run_task-Inv now task_workers d late v = Inv-later now (at task_workers) d late v

  run_locked-Inv :
      (now : ℕ) (t : Task) (x : Tables)
      → now ≤ at t
      → Inv now x.db
      → Inv (at t) (run_locked t x).1.db
  unfolding run_locked
  run_locked-Inv now t x late v = elim (Bool-cases (held t)) [
    | inl e ↦ rw e (Inv-later now (at t) x.db late v)
    | inr e ↦ rw e (run_task-Inv now t x.db late v)
  ]

  -- The transactions begin one after the other, the last not after `now'`.
  abbrev pub InTurn : ℕ → List Task → ℕ → Type 0
  InTurn now [] now' = now ≤ now'
  InTurn now (t ∷ ts) now' = (now ≤ at t) × InTurn (at t) ts now'

  InTurn_lem : (now : ℕ) (ts : List Task) (now' : ℕ) → InTurn now ts now' → now ≤ now'
  InTurn_lem now [] now' h = h
  InTurn_lem now (t ∷ ts) now' h = omega (arith, h.0, InTurn_lem (at t) ts now' h.1)

  after_task-Inv :
      (now now' : ℕ) (t : Task) (res : Swept) (r : Result ℕ × Tables)
      (next : Swept → Tables → Option Error × (Swept × Tables))
      → now ≤ now'
      → Inv now r.1.db
      → ((res' : Swept) (x : Tables) → Inv now x.db → Inv now' (next res' x).1.1.db)
      → Inv now' (after_task t res r next).1.1.db
  after_task-Inv now now' t res (ok n, x) next late v k = k (count_task t n res) x v
  after_task-Inv now now' t res (err e, x) next late v k = Inv-later now now' x.db late v

  sweep_from-Inv :
      (now now' : ℕ) (ts : List Task) (res : Swept) (x : Tables)
      → InTurn now ts now'
      → Inv now x.db
      → Inv now' (sweep_from ts res x).1.1.db
  unfolding sweep_from
  sweep_from-Inv now now' [] res x h v = Inv-later now now' x.db h v
  sweep_from-Inv now now' (t ∷ ts) res x h v =
      after_task-Inv (at t) now' t res (run_locked t x) (λ res' x'. sweep_from ts res' x')
        (InTurn_lem (at t) ts now' h.1) (run_locked-Inv now t x h.0 v)
        (λ res' x' v'. sweep_from-Inv (at t) now' ts res' x' h.1 v')

  -- A sweep keeps the invariant, whichever tasks are skipped because their lock is held, and also if a
  -- task's error ends it: its transactions begin one after the other, from `now` on and not after `now'`.
  pub sweep-Inv :
      (now now' : ℕ) (x : Tables) → InTurn now tasks now' → Inv now x.db → Inv now' (sweep x).1.1.db
  unfolding sweep
  sweep-Inv now now' x h v = sweep_from-Inv now now' tasks _ x h v
