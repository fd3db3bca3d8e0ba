-- ===== src/Dispatch/Completer.antt =====
-- internal/dispatch/completer.go: committing a batch of outcomes in one transaction. `w` is the
-- worker's id, the lease owner. Where two rows of a statement's input join one table row, the first
-- is the one that is used.
pub mod Keeps
pub mod Commit
pub mod Frees
pub mod Again
pub mod Run
pub mod Flush
use sms_gateway.Common.{
  ℕ, ◌+◌, Bool, true, false, ◌&&◌, ◌||◌, not, Option, none, some, List, [], ◌∷◌, ◌++◌, map, ltb,
  leb, ◌==◌, if◌then◌else◌, any, keep,
}
use sms_gateway.Common.Text.{Text}
use sms_gateway.Message.{
  Message, Status, accepted, sent, failed, expired, FailureReason, is_accepted, is_refundable,
  is_express,
}
use sms_gateway.Store.Tables.{null_text, QueueRow, Db, is_text, is_null, coalesce, whole_ms, mem_id}
use sms_gateway.Store.Tx.{Tx, Result, ok, err, ◌>>=◌, ◌>>◌, pure, gets, modify}
use sms_gateway.Billing.{Refund, refunds_where, apply_refunds}
use sms_gateway.Dispatch.Job.{
  Job, OutcomeKind, outcome_sent, outcome_retry, outcome_deferred, outcome_failed, outcome_expired,
  Outcome,
}

-- What the completer publishes once the commit succeeds: `applied` and `refunded`.
pub record Progress : Type 0 where
  pub applied : List Outcome
  pub refunded : ℕ

abbrev pub job_id : Outcome → ℕ
job_id o = o.job.id

-- `slices.SortFunc(sorted, compareIDs)`
unfoldable pub insert_outcome : Outcome → List Outcome → List Outcome
insert_outcome o [] = o ∷ []
insert_outcome o (x ∷ xs) = if leb o.job.id x.job.id then o ∷ x ∷ xs else x ∷ insert_outcome o xs

unfoldable pub sort_outcomes : List Outcome → List Outcome
unfolding insert_outcome
sort_outcomes [] = []
sort_outcomes (o ∷ os) = insert_outcome o (sort_outcomes os)

-- The queue row is the lease under which the outcome's job was claimed.
abbrev pub holds_lease : Text → Outcome → QueueRow → Bool
holds_lease w o q =
    q.message_id == o.job.id && (q.lease_version == o.job.lease_version && is_text q.lease_owner w)

-- `lockOwned`: the outcomes whose lease is still the worker's.
unfoldable pub lock_owned : Text → List Outcome → List QueueRow → List Outcome
lock_owned w batch queue =
    let current = keep (λ q. any (λ o. holds_lease w o q) batch) queue in
    keep
      (λ o. any (λ q. q.message_id == o.job.id && q.lease_version == o.job.lease_version) current)
      batch

-- The row of `unnest(...)` that joins a message.
unfoldable pub find_outcome : ℕ → List Outcome → Option Outcome
find_outcome i [] = none
find_outcome i (o ∷ os) = if o.job.id == i then some o else find_outcome i os

abbrev pub joins : List Outcome → ℕ → Bool
joins os i = not (is_null (find_outcome i os))

-- `recordApplied`: the first outcome of each changed message.
unfoldable pub record_applied : List Outcome → List ℕ → List Outcome
record_applied [] changed = []
record_applied (o ∷ os) changed =
    let rest = record_applied os (keep (λ i. not (i == o.job.id)) changed) in
    let same = record_applied os changed in if mem_id o.job.id changed then o ∷ rest else same

abbrev pub changed_ids : (Message → Bool) → List Message → List ℕ
changed_ids p ms = map (λ m. m.id) (keep p ms)

-- DELETE FROM queue WHERE message_id = ANY(ids) AND lease_owner = w
unfoldable pub delete_queue_rows : Text → List ℕ → List QueueRow → List QueueRow
delete_queue_rows w ids = keep (λ q. not (mem_id q.message_id ids && is_text q.lease_owner w))

abbrev pub late : ℕ → ℕ → Message → Bool
late now sla m = is_express m.message_type && ltb (m.accepted_at + whole_ms sla) now

-- m.status NOT IN ('failed', 'expired') AND m.sent_at IS NULL
abbrev pub sendable : Message → Bool
sendable m = not (is_refundable m.status) && is_null m.sent_at

sent_row : ℕ → ℕ → Option Outcome → Message → Message
sent_row now sla none m = m
sent_row now sla (some o) m =
    if sendable m
    then record m {
      status = if is_accepted m.status then sent else m.status;
      sent_at = some now;
      provider = if is_accepted m.status then some o.provider else m.provider;
      provider_ref = if is_accepted m.status then some o.provider_ref else m.provider_ref;
      attempts = m.attempts + (if m.attempts == o.job.attempts then 1 else 0);
      sla_breached = m.sla_breached || late now sla m;
      updated_at = now;
    }
    else m

unfoldable pub update_sent : ℕ → ℕ → List Outcome → Message → Message
unfolding sent_row
update_sent now sla os m = sent_row now sla (find_outcome m.id os) m

unfoldable pub commit_sent : ℕ → ℕ → Text → List Outcome → Tx (List Outcome)
commit_sent now sla w os = do
  changed ← gets (λ d. changed_ids (λ m. joins os m.id && sendable m) d.messages)
  modify (λ d. record d {
    messages = map (update_sent now sla os) d.messages;
    queue = delete_queue_rows w (map job_id os) d.queue;
  })
  pure (record_applied os changed)

retry_row : ℕ → Option Outcome → Message → Message
retry_row now none m = m
retry_row now (some o) m =
    if is_accepted m.status
    then record m {
      attempts = m.attempts + (if m.attempts == o.job.attempts then 1 else 0);
      provider = some o.provider;
      last_error = some o.error;
      updated_at = now;
    }
    else m

unfoldable pub update_retry : ℕ → List Outcome → Message → Message
unfolding retry_row
update_retry now os m = retry_row now (find_outcome m.id os) m

release_row : ℕ → Text → Option Outcome → QueueRow → QueueRow
release_row now w none q = q
release_row now w (some o) q =
    if is_text q.lease_owner w
    then record q { lease_owner = none; next_attempt_at = now + whole_ms o.delay }
    else q

-- The queue rows of the outcomes are returned with the outcomes' delays.
unfoldable pub release : ℕ → Text → List Outcome → QueueRow → QueueRow
unfolding release_row
release now w os q = release_row now w (find_outcome q.message_id os) q

-- `delays[id]`: the last outcome of a message sets it.
unfoldable pub last_delay : ℕ → List Outcome → ℕ → ℕ
last_delay i [] delay = delay
last_delay i (o ∷ os) delay = last_delay i os (if o.job.id == i then o.delay else delay)

unfoldable pub with_last_delay : List Outcome → Outcome → Outcome
unfolding last_delay
with_last_delay os o = record o { delay = last_delay o.job.id os o.delay }

-- The rows of the statement that reschedules: the pending messages with their delays.
unfoldable pub pending_delays : List ℕ → List Outcome → List Outcome
pending_delays pending os = map (with_last_delay os) (keep (λ o. mem_id o.job.id pending) os)

unfoldable pub commit_retry : ℕ → Text → List Outcome → Tx (List Outcome)
commit_retry now w os = do
  pending ← gets (λ d. changed_ids (λ m. joins os m.id && is_accepted m.status) d.messages)
  modify (λ d. record d { messages = map (update_retry now os) d.messages })
  modify (λ d. record d { queue = map (release now w (pending_delays pending os)) d.queue })
  let finished = keep (λ i. not (mem_id i pending)) (map job_id os)
  modify (λ d. record d { queue = delete_queue_rows w finished d.queue })
  pure (record_applied os pending)

unfoldable pub commit_deferred : ℕ → Text → List Outcome → Tx (List Outcome)
commit_deferred now w os = do
  changed ← gets (λ d.
      map (λ q. q.message_id)
        (keep (λ q. joins os q.message_id && is_text q.lease_owner w) d.queue))
  modify (λ d. record d { queue = map (release now w os) d.queue })
  pure (record_applied os changed)

abbrev is_expired_kind : OutcomeKind → Bool
is_expired_kind outcome_expired = true
is_expired_kind _ = false

terminal_row : ℕ → Option Outcome → Message → Message
terminal_row now none m = m
terminal_row now (some o) m =
    if is_accepted m.status
    then record m {
      status = if is_expired_kind o.kind then expired else failed;
      failure_reason = o.reason;
      completed_at = some now;
      attempts = m.attempts + (if o.attempted then 1 else 0);
      provider = coalesce (null_text o.provider) m.provider;
      last_error = coalesce (null_text o.error) m.last_error;
      sla_breached = m.sla_breached || is_express m.message_type;
      updated_at = now;
    }
    else m

unfoldable pub update_terminal : ℕ → List Outcome → Message → Message
unfolding terminal_row
update_terminal now os m = terminal_row now (find_outcome m.id os) m

abbrev pub ends : List Outcome → Message → Bool
ends os m = joins os m.id && is_accepted m.status

sum_refunds : List Refund → ℕ
sum_refunds [] = 0
sum_refunds (r ∷ rs) = r.amount + sum_refunds rs

unfoldable pub commit_terminal : ℕ → (ℕ → ℕ) → Text → List Outcome → Tx Progress
unfolding sum_refunds
commit_terminal now new_id w os = do
  refunds ← gets (λ d. refunds_where (ends os) d.messages)
  modify (λ d. record d { messages = map (update_terminal now os) d.messages })
  apply_refunds now new_id refunds
  modify (λ d. record d { queue = delete_queue_rows w (map job_id os) d.queue })
  pure (record {
    applied = record_applied os (map (λ r. r.message_id) refunds);
    refunded = sum_refunds refunds;
  })

abbrev pub of_kind : (OutcomeKind → Bool) → List Outcome → List Outcome
of_kind p = keep (λ o. p o.kind)

abbrev pub is_sent_kind : OutcomeKind → Bool
is_sent_kind outcome_sent = true
is_sent_kind _ = false

abbrev pub is_retry_kind : OutcomeKind → Bool
is_retry_kind outcome_retry = true
is_retry_kind _ = false

abbrev pub is_deferred_kind : OutcomeKind → Bool
is_deferred_kind outcome_deferred = true
is_deferred_kind _ = false

abbrev pub is_terminal_kind : OutcomeKind → Bool
is_terminal_kind outcome_failed = true
is_terminal_kind outcome_expired = true
is_terminal_kind _ = false

-- A step whose outcomes are empty is skipped.
unfoldable pub unless_empty : {A : Type 0} → A → (List Outcome → Tx A) → List Outcome → Tx A
unless_empty a step [] = pure a
unless_empty a step (o ∷ os) = step (o ∷ os)

-- `commit`
unfoldable pub commit : ℕ → (ℕ → ℕ) → ℕ → Text → List Outcome → Tx Progress
commit now new_id sla w batch = do
  owned ← gets (λ d. lock_owned w (sort_outcomes batch) d.queue)
  sent_ones ← unless_empty [] (commit_sent now sla w) (of_kind is_sent_kind owned)
  retried ← unless_empty [] (commit_retry now w) (of_kind is_retry_kind owned)
  deferred ← unless_empty [] (commit_deferred now w) (of_kind is_deferred_kind owned)
  ended ←
      unless_empty (record { applied = []; refunded = 0 }) (commit_terminal now new_id w)
        (of_kind is_terminal_kind owned)
  pure (record ended { applied = sent_ones ++ retried ++ deferred ++ ended.applied })
