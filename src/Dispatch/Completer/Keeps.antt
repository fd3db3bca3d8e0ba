-- ===== src/Dispatch/Completer/Keeps.antt =====
-- Each step of a commit keeps the invariant of the tables.
use sms_gateway.Common.{
  ℕ, ◌≤◌, ◌≡◌, refl, ◌∙◌, ◌⊎◌, Bool, true, false, ◌&&◌, not, none, some, List, [], ◌∷◌, map, arith,
  keep, All, All-imp, All-zip, Bool-cases, Option-cases, inl, inr,
}
use sms_gateway.Common.Text.{Text}
use sms_gateway.Message.{Message, is_accepted}
use sms_gateway.Store.Tables.{Transaction, QueueRow, Db, queued, mem_id}
use sms_gateway.Store.Tx.{After}
use sms_gateway.Invariant.{Settled, Inv, times_violated}
use sms_gateway.Invariant.Update.{Change, Change-same, Inv-map, Inv-queue}
use sms_gateway.Dispatch.Job.{Outcome}
use sms_gateway.Dispatch.Completer.{
  job_id, find_outcome, joins, delete_queue_rows, update_sent, sent_row, commit_sent, update_retry,
  retry_row, release, pending_delays, commit_retry, commit_deferred, changed_ids, sendable,
}

pub mem_id-joins : (i : ℕ) (os : List Outcome) → mem_id i (map job_id os) ≡ joins os i
unfolding mem_id find_outcome
mem_id-joins i [] = refl
mem_id-joins i (o ∷ os) = ground (arith, mem_id-joins i os)

pub queued-delete :
    (w : Text) (ids : List ℕ) (i : ℕ) (q : List QueueRow)
    → mem_id i ids ≡ false
    → queued i (delete_queue_rows w ids q) ≡ queued i q
unfolding queued delete_queue_rows
queued-delete w ids i [] h = refl
queued-delete w ids i (r ∷ q) h = ground (arith, queued-delete w ids i q h)

pub still_queued :
    (w : Text) (os : List Outcome) (i : ℕ) (q : List QueueRow)
    → find_outcome i os ≡ none
    → queued i q ≡ true
    → queued i (delete_queue_rows w (map job_id os) q) ≡ true
still_queued w os i q e h =
    queued-delete w (map job_id os) i q (mem_id-joins i os ∙ ground (arith, e)) ∙ h

sent_row-Change :
    (now now' sla : ℕ) (txs : List Transaction) (q q' : List QueueRow) (o : Outcome) (m : Message)
    → now ≤ now'
    → Settled txs q now m
    → Change q' false m (sent_row now' sla (some o) m)
unfolding sent_row times_violated
sent_row-Change now now' sla txs q q' o m late s = elim (Bool-cases (sendable m)) [
  | inl can ↦
      rw (can, sent_row)
        (record {
          same_id = refl;
          same_cost = refl;
          same_accepted = refl;
          refundable = ground arith;
          first_time = λ h. cc;
          still_waiting = λ h. ground arith;
          still_unsent = λ h. ground arith;
          in_time = ground arith;
        })
  | inr cannot ↦
      rw (cannot, sent_row) (Change-same txs q q' now m s (λ h. ground (arith, s.unsent h)))
]

update_sent-Change :
    (now now' sla : ℕ) (w : Text) (os : List Outcome) (txs : List Transaction) (q : List QueueRow)
    (m : Message)
    → now ≤ now'
    → Settled txs q now m
    → Change (delete_queue_rows w (map job_id os) q) false m (update_sent now' sla os m)
unfolding update_sent
update_sent-Change now now' sla w os txs q m late s = elim (Option-cases (find_outcome m.id os)) [
  | inl e ↦
      rw (e, update_sent)
        (Change-same txs q _ now m s (λ h. still_queued w os m.id q e (s.waiting h)))
  | inr (o, e) ↦ rw (e, update_sent) (sent_row-Change now now' sla txs q _ o m late s)
]

update_sent_id :
    (now sla : ℕ) (os : List Outcome) (m : Message) → (update_sent now sla os m).id ≡ m.id
unfolding update_sent
update_sent_id now sla os m = ground arith

abbrev pub Keeps : {A : Type 0} → ℕ → A → Db → Type 0
Keeps now _ d = Inv now d

pub commit_sent-Inv :
    (now now' sla : ℕ) (w : Text) (os : List Outcome) (d : Db)
    → now ≤ now'
    → Inv now d
    → After (Keeps now') (commit_sent now' sla w os d)
unfolding commit_sent
commit_sent-Inv now now' sla w os d late v =
    Inv-map now now' (update_sent now' sla os) (delete_queue_rows w (map job_id os) d.queue) d late
      v (update_sent_id now' sla os)
      (All-imp _ _ d.messages
        (λ m s. update_sent-Change now now' sla w os d.transactions d.queue m late s) v.settled)

release_id :
    (now : ℕ) (w : Text) (os : List Outcome) (q : QueueRow)
    → (release now w os q).message_id ≡ q.message_id
unfolding release
release_id now w os q = ground arith

pub queued-release :
    (now : ℕ) (w : Text) (os : List Outcome) (i : ℕ) (q : List QueueRow)
    → queued i (map (release now w os) q) ≡ queued i q
unfolding queued
queued-release now w os i [] = refl
queued-release now w os i (r ∷ q) = rw (release_id now w os r, queued-release now w os i q)

pub commit_deferred-Inv :
    (now now' : ℕ) (w : Text) (os : List Outcome) (d : Db)
    → now ≤ now'
    → Inv now d
    → After (Keeps now') (commit_deferred now' w os d)
unfolding commit_deferred
commit_deferred-Inv now now' w os d late v =
    Inv-queue now now' (map (release now' w os) d.queue) d late v
      (λ i h. queued-release now' w os i d.queue ∙ h)

pub mem_id-keep :
    (i : ℕ) (f : ℕ → Bool) (ids : List ℕ) → mem_id i (keep f ids) ≡ (mem_id i ids && f i)
unfolding mem_id
mem_id-keep i f [] = refl
mem_id-keep i f (j ∷ ids) = ground (arith, mem_id-keep i f ids)

-- An updated row is among those that the statement returns.
pub returned :
    (p : Message → Bool) (ms : List Message)
    → All (λ m. p m ≡ true → mem_id m.id (changed_ids p ms) ≡ true) ms
unfolding mem_id
returned p [] = tt
returned p (m ∷ ms) =
    ((λ h. ground arith), All-imp _ _ ms (λ m' old h. ground (arith, old h)) (returned p ms))

retry_row-Change :
    (now now' : ℕ) (txs : List Transaction) (q q' : List QueueRow) (o : Outcome) (m : Message)
    → now ≤ now'
    → Settled txs q now m
    → (is_accepted m.status ≡ true → queued m.id q' ≡ true)
    → Change q' false m (retry_row now' (some o) m)
unfolding retry_row times_violated
retry_row-Change now now' txs q q' o m late s h = elim (Bool-cases (is_accepted m.status)) [
  | inl can ↦
      rw (can, retry_row)
        (record {
          same_id = refl;
          same_cost = refl;
          same_accepted = refl;
          refundable = ground arith;
          first_time = λ e. cc;
          still_waiting = λ e. h can;
          still_unsent = s.unsent;
          in_time = s.timely;
        })
  | inr cannot ↦ rw (cannot, retry_row) (Change-same txs q q' now m s h)
]

update_retry-Change :
    (now now' : ℕ) (os : List Outcome) (txs : List Transaction) (q q' : List QueueRow) (m : Message)
    → now ≤ now'
    → Settled txs q now m
    → (is_accepted m.status ≡ true → queued m.id q' ≡ true)
    → Change q' false m (update_retry now' os m)
unfolding update_retry
update_retry-Change now now' os txs q q' m late s h = elim (Option-cases (find_outcome m.id os)) [
  | inl e ↦ rw (e, update_retry) (Change-same txs q q' now m s h)
  | inr (o, e) ↦ rw (e, update_retry) (retry_row-Change now now' txs q q' o m late s h)
]

update_retry_id : (now : ℕ) (os : List Outcome) (m : Message) → (update_retry now os m).id ≡ m.id
unfolding update_retry
update_retry_id now os m = ground arith

-- The ids that `commitRetry` dequeues: those whose message was not updated.
abbrev finished_ids : List Outcome → List Message → List ℕ
finished_ids os ms =
    keep (λ i. not (mem_id i (changed_ids (λ m. joins os m.id && is_accepted m.status) ms)))
      (map job_id os)

accepted_unfinished :
    (os : List Outcome) (ms : List Message) (m : Message)
    → ((joins os m.id && is_accepted m.status) ≡ true
        → mem_id m.id (changed_ids (λ m. joins os m.id && is_accepted m.status) ms) ≡ true)
    → is_accepted m.status ≡ true
    → mem_id m.id (finished_ids os ms) ≡ false
accepted_unfinished os ms m h e =
    mem_id-keep m.id _ (map job_id os)
    ∙ rw (mem_id-joins m.id os) (split (Bool-cases (joins os m.id)))
  where
    split :
        (joins os m.id ≡ true) ⊎ (joins os m.id ≡ false)
        → (joins os m.id
            && not (mem_id m.id (changed_ids (λ m. joins os m.id && is_accepted m.status) ms)))
          ≡ false
    split (inl yes_) = rw (yes_, h (rw (yes_, e) refl)) refl
    split (inr no_) = rw no_ refl

pub commit_retry-Inv :
    (now now' : ℕ) (w : Text) (os : List Outcome) (d : Db)
    → now ≤ now'
    → Inv now d
    → After (Keeps now') (commit_retry now' w os d)
unfolding commit_retry
commit_retry-Inv now now' w os d late v =
    let pending = changed_ids (λ m. joins os m.id && is_accepted m.status) d.messages in
    let released = map (release now' w (pending_delays pending os)) d.queue in
    Inv-map now now' (update_retry now' os)
      (delete_queue_rows w (finished_ids os d.messages) released) d late v (update_retry_id now' os)
      (All-zip _ _ _ d.messages
        (λ m s r. update_retry-Change now now' os d.transactions d.queue _ m late s (λ e.
          queued-delete w (finished_ids os d.messages) m.id released
            (accepted_unfinished os d.messages m r e)
          ∙ queued-release now' w _ m.id d.queue
          ∙ s.waiting e))
        v.settled (returned _ d.messages))
