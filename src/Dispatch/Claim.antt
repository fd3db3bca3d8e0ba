-- ===== src/Dispatch/Claim.antt =====
-- internal/dispatch/claim.go: leasing ready queue rows. `locked` says which rows another transaction
-- holds locked, which SKIP LOCKED passes over.
pub mod Lease
pub mod Held
pub mod Exclusive
use sms_gateway.Common.{
  ℕ, ◌+◌, Bool, true, false, ◌&&◌, not, Option, none, some, List, [], ◌∷◌, ◌++◌, map, leb, ◌==◌,
  if◌then◌else◌, any, keep, take,
}
use sms_gateway.Common.Text.{Text, text_eq}
use sms_gateway.Message.{Message, is_accepted}
use sms_gateway.Store.Tables.{QueueRow, Db, whole_ms, mem_id}
use sms_gateway.Dispatch.Job.{Job}

unfoldable pub accepted_message : ℕ → List Message → Bool
accepted_message i = any (λ m. m.id == i && is_accepted m.status)

-- The rows of the CTE before its LIMIT.
unfoldable pub is_ready : ℕ → (ℕ → Bool) → Text → List Message → QueueRow → Bool
unfolding accepted_message
is_ready now locked lane ms q =
    text_eq q.lane lane
    && (leb q.next_attempt_at now
        && (accepted_message q.message_id ms && not (locked q.message_id)))

-- ORDER BY next_attempt_at
insert_row : QueueRow → List QueueRow → List QueueRow
insert_row q [] = q ∷ []
insert_row q (r ∷ rs) =
    if leb q.next_attempt_at r.next_attempt_at then q ∷ r ∷ rs else r ∷ insert_row q rs

unfoldable pub sort_rows : List QueueRow → List QueueRow
unfolding insert_row
sort_rows [] = []
sort_rows (q ∷ qs) = insert_row q (sort_rows qs)

unfoldable pub picked : ℕ → (ℕ → Bool) → Text → ℕ → Db → List ℕ
unfolding is_ready sort_rows
picked now locked lane n d =
    map (λ q. q.message_id)
      (take n (sort_rows (keep (is_ready now locked lane d.messages) d.queue)))

unfoldable pub lease : ℕ → Text → ℕ → List ℕ → QueueRow → QueueRow
lease now w duration ids q =
    if mem_id q.message_id ids
    then record q {
      lease_owner = some w;
      lease_version = q.lease_version + 1;
      next_attempt_at = now + whole_ms duration;
    }
    else q

job_of : ℕ → QueueRow → Message → Job
job_of now q m = record {
  id = m.id;
  customer_id = m.customer_id;
  message_type = m.message_type;
  recipient = m.recipient;
  body = m.body;
  attempts = m.attempts;
  accepted_at = m.accepted_at;
  expires_at = m.expires_at;
  lease_version = q.lease_version;
  claim_time = now;
}

-- The RETURNING rows: each leased row with the messages that join it.
unfoldable pub jobs_of : ℕ → List ℕ → List Message → List QueueRow → List Job
unfolding job_of
jobs_of now ids ms [] = []
jobs_of now ids ms (q ∷ qs) =
    let rest = jobs_of now ids ms qs in
    if mem_id q.message_id ids
    then map (job_of now q) (keep (λ m. m.id == q.message_id) ms) ++ rest
    else rest

-- `claim`
unfoldable pub claim : ℕ → (ℕ → Bool) → Text → ℕ → Text → ℕ → Db → List Job × Db
unfolding picked lease jobs_of
claim now locked w duration lane n d =
    let ids = picked now locked lane n d in
    let queue' = map (lease now w duration ids) d.queue in
    (jobs_of now ids d.messages queue', record d { queue = queue' })
