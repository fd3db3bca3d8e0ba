-- ===== src/Dispatch/Completer/Commit.antt =====
-- A whole commit keeps the invariant, its refunds included.
use sms_gateway.Common.{
  ℕ, ◌≤◌, ◌≡◌, refl, ap, some, List, [], ◌∷◌, map, arith, All-imp, Bool-cases, Option-cases, inl,
  inr,
}
use sms_gateway.Common.Text.{Text}
use sms_gateway.Message.{Message, is_accepted}
use sms_gateway.Store.Tables.{Transaction, QueueRow, Db}
use sms_gateway.Store.Tx.{Tx, with_tx, with_tx_lem, After, After-bind}
use sms_gateway.Billing.{refunds_where, apply_refunds}
use sms_gateway.Billing.Apply.{Refunded, apply_refunds-Refunded}
use sms_gateway.Invariant.{Settled, Inv, times_violated}
use sms_gateway.Invariant.Update.{Change, Change-same, Inv-update, Inv-later, Refunded-queue}
use sms_gateway.Dispatch.Job.{Outcome}
use sms_gateway.Dispatch.Completer.{
  job_id, find_outcome, delete_queue_rows, commit_sent, commit_retry, commit_deferred,
  update_terminal, terminal_row, ends, commit_terminal, unless_empty, commit, of_kind, is_sent_kind,
  is_retry_kind, is_deferred_kind, is_terminal_kind, lock_owned, sort_outcomes,
}
use sms_gateway.Dispatch.Completer.Keeps.{
  Keeps, still_queued, commit_sent-Inv, commit_retry-Inv, commit_deferred-Inv,
}

terminal_row-Change :
    (now now' : ℕ) (txs : List Transaction) (q q' : List QueueRow) (o : Outcome) (m : Message)
    → now ≤ now'
    → Settled txs q now m
    → Change q' (is_accepted m.status) m (terminal_row now' (some o) m)
unfolding terminal_row times_violated
terminal_row-Change now now' txs q q' o m late s = elim (Bool-cases (is_accepted m.status)) [
  | inl can ↦
      rw (can, terminal_row)
        (record {
          same_id = refl;
          same_cost = refl;
          same_accepted = refl;
          refundable = ground arith;
          first_time = λ e. ground arith;
          still_waiting = λ e. ground arith;
          still_unsent = λ e. ground arith;
          in_time = ground (arith, s.unsent can);
        })
  | inr cannot ↦ rw (cannot, terminal_row) (Change-same txs q q' now m s (λ e. ground arith))
]

update_terminal-Change :
    (now now' : ℕ) (w : Text) (os : List Outcome) (txs : List Transaction) (q : List QueueRow)
    (m : Message)
    → now ≤ now'
    → Settled txs q now m
    → Change (delete_queue_rows w (map job_id os) q) (ends os m) m (update_terminal now' os m)
unfolding update_terminal
update_terminal-Change now now' w os txs q m late s = elim (Option-cases (find_outcome m.id os)) [
  | inl e ↦
      rw (e, update_terminal)
        (Change-same txs q _ now m s (λ h. still_queued w os m.id q e (s.waiting h)))
  | inr (o, e) ↦ rw (e, update_terminal) (terminal_row-Change now now' txs q _ o m late s)
]

update_terminal_id :
    (now : ℕ) (os : List Outcome) (m : Message) → (update_terminal now os m).id ≡ m.id
unfolding update_terminal
update_terminal_id now os m = ground arith

commit_terminal-Inv :
    (now now' : ℕ) (new_id : ℕ → ℕ) (w : Text) (os : List Outcome) (d : Db)
    → now ≤ now'
    → Inv now d
    → After (Keeps now') (commit_terminal now' new_id w os d)
unfolding commit_terminal
commit_terminal-Inv now now' new_id w os d late v =
    let updated : Db = record d { messages = map (update_terminal now' os) d.messages } in
    let rs = refunds_where (ends os) d.messages in
    After-bind (λ _ d'. Refunded rs updated d') (Keeps now') (apply_refunds now' new_id rs) _
      updated (apply_refunds-Refunded now' new_id rs updated)
      λ _ d' r.
        let q = delete_queue_rows w (map job_id os) d'.queue in
        let q' = delete_queue_rows w (map job_id os) d.queue in
        let same : q ≡ q' = ap (delete_queue_rows w (map job_id os)) r.same_queue in
        Inv-update now now' (update_terminal now' os) (ends os) q d (record d' { queue = q }) late v
          (update_terminal_id now' os)
          (rw same (
            All-imp _ _ d.messages
              (λ m s. update_terminal-Change now now' w os d.transactions d.queue m late s)
              v.settled))
          (Refunded-queue rs q updated d' r)

pub After-unless_empty :
    {A : Type 0} (P : A → Db → Type 0) (a : A) (step : List Outcome → Tx A) (os : List Outcome)
    (d : Db)
    → P a d
    → After P (step os d)
    → After P (unless_empty a step os d)
unfolding unless_empty
After-unless_empty P a step [] d h k = h
After-unless_empty P a step (o ∷ os) d h k = k

-- A step of the commit, skipped or not.
kept :
    {A : Type 0} (now : ℕ) (a : A) (step : List Outcome → Tx A) (os : List Outcome) (d : Db)
    → Inv now d
    → After (Keeps now) (step os d)
    → After (Keeps now) (unless_empty a step os d)
kept now a step os d v h = After-unless_empty (Keeps now) a step os d v h

commit_run :
    (now sla : ℕ) (new_id : ℕ → ℕ) (w : Text) (batch : List Outcome) (d : Db)
    → Inv now d
    → After (Keeps now) (commit now new_id sla w batch d)
unfolding commit
commit_run now sla new_id w batch d v =
    let owned = lock_owned w (sort_outcomes batch) d.queue in
    let sents = of_kind is_sent_kind owned in
    let retries = of_kind is_retry_kind owned in
    let deferrals = of_kind is_deferred_kind owned in
    let ends_ = of_kind is_terminal_kind owned in
    After-bind (Keeps now) (Keeps now) (unless_empty [] (commit_sent now sla w) sents) _ d
      (kept now [] (commit_sent now sla w) sents d v
        (commit_sent-Inv now now sla w sents d (omega arith) v))
      λ _ d₁ v₁.
        After-bind (Keeps now) (Keeps now) (unless_empty [] (commit_retry now w) retries) _ d₁
          (kept now [] (commit_retry now w) retries d₁ v₁
            (commit_retry-Inv now now w retries d₁ (omega arith) v₁))
          λ _ d₂ v₂.
            After-bind (Keeps now) (Keeps now) (unless_empty [] (commit_deferred now w) deferrals) _
              d₂
              (kept now [] (commit_deferred now w) deferrals d₂ v₂
                (commit_deferred-Inv now now w deferrals d₂ (omega arith) v₂))
              λ _ d₃ v₃.
                After-bind (Keeps now) (Keeps now)
                  (unless_empty (record { applied = []; refunded = 0 })
                    (commit_terminal now new_id w) ends_)
                  _ d₃
                  (kept now _ (commit_terminal now new_id w) ends_ d₃ v₃
                    (commit_terminal-Inv now now new_id w ends_ d₃ (omega arith) v₃))
                  λ _ d₄ v₄. v₄

-- Committing any batch of outcomes, at any later time, keeps the invariant: whatever the outcomes
-- say, whoever holds the leases now, and also if the batch names a message twice or messages that are
-- gone or have ended.
pub commit-Inv :
    (now now' sla : ℕ) (new_id : ℕ → ℕ) (w : Text) (batch : List Outcome) (d : Db)
    → now ≤ now'
    → Inv now d
    → Inv now' (with_tx (commit now' new_id sla w batch) d).1
commit-Inv now now' sla new_id w batch d late v =
    with_tx_lem (Inv now') (commit now' new_id sla w batch) d (Inv-later now now' d late v)
      (commit_run now' sla new_id w batch d (Inv-later now now' d late v))
