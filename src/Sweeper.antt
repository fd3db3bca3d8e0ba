-- ===== src/Sweeper.antt =====
-- internal/sweeper/tasks.go: periodic maintenance of the tables. `locked` says which queue rows
-- another transaction holds locked; `limit` is the configured batch size.
pub mod Keeps
pub mod Lanes
pub mod Sweep
pub mod Reassign
use sms_gateway.Common.{
  ℕ, ◌+◌, Bool, true, false, ◌&&◌, ◌||◌, not, Option, none, some, List, [], ◌∷◌, map, ltb, leb,
  ◌==◌, length, if◌then◌else◌, any, keep, take,
}
use sms_gateway.Common.Text.{Text, codes, text_eq}
use sms_gateway.Message.{Message, expired, ttl_expired, is_accepted, is_express}
use sms_gateway.Store.Tables.{QueueRow, Db, is_null, whole_ms, mem_id, delete_ids}
use sms_gateway.Store.Tx.{Tx, Result, ok, err, ◌>>=◌, ◌>>◌, pure, gets, modify}
use sms_gateway.Billing.{Refund, refunds_where, apply_refunds}

-- lease_owner IS NULL OR next_attempt_at <= now()
abbrev pub unheld : ℕ → QueueRow → Bool
unheld now q = is_null q.lease_owner || leb q.next_attempt_at now

-- ORDER BY message_id
insert_by_id : QueueRow → List QueueRow → List QueueRow
insert_by_id q [] = q ∷ []
insert_by_id q (r ∷ rs) =
    if leb q.message_id r.message_id then q ∷ r ∷ rs else r ∷ insert_by_id q rs

sort_by_id : List QueueRow → List QueueRow
unfolding insert_by_id
sort_by_id [] = []
sort_by_id (q ∷ qs) = insert_by_id q (sort_by_id qs)

-- The CTE of `expire`.
unfoldable pub due : ℕ → (ℕ → Bool) → ℕ → List QueueRow → List ℕ
unfolding sort_by_id
due now locked limit queue =
    map (λ q. q.message_id)
      (take limit (
        sort_by_id
          (keep (λ q. leb q.expires_at now && (unheld now q && not (locked q.message_id))) queue)))

abbrev pub expires : List ℕ → Message → Bool
expires ids m = mem_id m.id ids && is_accepted m.status

unfoldable pub expire_row : ℕ → List ℕ → Message → Message
expire_row now ids m =
    if expires ids m
    then record m {
      status = expired;
      failure_reason = some ttl_expired;
      completed_at = some now;
      sla_breached = m.sla_breached || is_express m.message_type;
      updated_at = now;
    }
    else m

-- `expire`: the number of messages that it ended.
unfoldable pub expire : ℕ → (ℕ → ℕ) → (ℕ → Bool) → ℕ → Tx ℕ
expire now new_id locked limit = do
  ids ← gets (λ d. due now locked limit d.queue)
  refunds ← gets (λ d. refunds_where (expires ids) d.messages)
  modify (λ d. record d { messages = map (expire_row now ids) d.messages })
  apply_refunds now new_id refunds
  modify (λ d. record d { queue = delete_ids (map (λ r. r.message_id) refunds) d.queue })
  pure (length refunds)

abbrev express_lane : Text
express_lane = codes "express"

-- q JOIN messages w, at one message.
overdue : ℕ → ℕ → Message → Bool
overdue now sla m =
    is_accepted m.status && (not m.sla_breached && ltb (m.accepted_at + whole_ms sla) now)

unfoldable pub flagged_ids : ℕ → ℕ → ℕ → Db → List ℕ
unfolding overdue
flagged_ids now sla limit d = take limit (
    map (λ q. q.message_id)
      (keep
        (λ q.
          text_eq q.lane express_lane
          && any (λ m. m.id == q.message_id && overdue now sla m) d.messages)
        d.queue))

unfoldable pub flag_row : ℕ → List ℕ → Message → Message
flag_row now ids m =
    if mem_id m.id ids then record m { sla_breached = true; updated_at = now } else m

-- `flagSLA`
unfoldable pub flag_sla : ℕ → ℕ → ℕ → Tx ℕ
flag_sla now sla limit = do
  ids ← gets (flagged_ids now sla limit)
  modify (λ d. record d { messages = map (flag_row now ids) d.messages })
  gets (λ d. length (keep (λ m. mem_id m.id ids) d.messages))

unfoldable pub finished_message : ℕ → List Message → Bool
finished_message i = any (λ m. m.id == i && not (is_accepted m.status))

unfoldable pub orphan_ids : ℕ → (ℕ → Bool) → ℕ → Db → List ℕ
orphan_ids now locked limit d = take limit (
    map (λ q. q.message_id)
      (keep
        (λ q.
          finished_message q.message_id d.messages && (unheld now q && not (locked q.message_id)))
        d.queue))

-- `removeOrphans`
unfoldable pub remove_orphans : ℕ → (ℕ → Bool) → ℕ → Tx ℕ
remove_orphans now locked limit = do
  ids ← gets (orphan_ids now locked limit)
  removed ← gets (λ d. length (keep (λ q. mem_id q.message_id ids) d.queue))
  modify (λ d. record d { queue = delete_ids ids d.queue })
  pure removed
