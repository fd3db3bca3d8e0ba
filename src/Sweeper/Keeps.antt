-- ===== src/Sweeper/Keeps.antt =====
-- The sweeper's tasks keep the invariant.
use sms_gateway.Common.{
  ℕ, zero, suc, ◌≤◌, ◌≡◌, refl, ap, ◌∙◌, inl, inr, Bool, true, false, ◌&&◌, not, List, [], ◌∷◌, map,
  ◌==◌, if◌then◌else◌, arith, keep, take, All, All-imp, All-zip, Bool-cases,
}
use sms_gateway.Message.{Message, is_accepted}
use sms_gateway.Store.Tables.{Transaction, QueueRow, Db, queued, mem_id, delete_ids, has_message}
use sms_gateway.Store.Tx.{with_tx, with_tx_lem, After, After-bind}
use sms_gateway.Billing.{Refund, refunds_where, apply_refunds}
use sms_gateway.Billing.Apply.{Refunded, apply_refunds-Refunded}
use sms_gateway.Invariant.{Settled, Inv, Distinct, times_violated}
use sms_gateway.Invariant.Update.{
  Change, Change-same, Inv-update, Inv-map, Inv-rows, Inv-later, Refunded-queue, others_differ,
}
use sms_gateway.Sweeper.{
  due, expires, expire_row, expire, flagged_ids, flag_row, flag_sla, finished_message, orphan_ids,
  unheld, remove_orphans,
}

pub queued-delete_ids :
    (ids : List ℕ) (i : ℕ) (q : List QueueRow)
    → mem_id i ids ≡ false
    → queued i (delete_ids ids q) ≡ queued i q
unfolding queued delete_ids
queued-delete_ids ids i [] h = refl
queued-delete_ids ids i (r ∷ q) h = ground (arith, queued-delete_ids ids i q h)

mem_id-cons :
    (i j : ℕ) (ids : List ℕ) → mem_id i (j ∷ ids) ≡ (if j == i then true else mem_id i ids)
unfolding mem_id
mem_id-cons i j ids = refl

mem_id-nil : (i : ℕ) → mem_id i [] ≡ false
unfolding mem_id
mem_id-nil i = refl

expire_row_id : (now : ℕ) (ids : List ℕ) (m : Message) → (expire_row now ids m).id ≡ m.id
unfolding expire_row
expire_row_id now ids m = ground arith

flag_row_id : (now : ℕ) (ids : List ℕ) (m : Message) → (flag_row now ids m).id ≡ m.id
unfolding flag_row
flag_row_id now ids m = ground arith

-- Every refunded message is due.
refunded-due :
    (ids : List ℕ) (i : ℕ) (ms : List Message)
    → mem_id i ids ≡ false
    → mem_id i (map (λ r. r.message_id) (refunds_where (expires ids) ms)) ≡ false
unfolding refunds_where
refunded-due ids i [] h = mem_id-nil i
refunded-due ids i (m ∷ ms) h = ground (
  arith,
  refunded-due ids i ms h,
  mem_id-cons i m.id (map (λ r. r.message_id) (refunds_where (expires ids) ms)),
  ap (λ j. mem_id j ids) {x = m.id} {y = i},
)

expire_row-Change :
    (now now' : ℕ) (ids : List ℕ) (txs : List Transaction) (q q' : List QueueRow) (m : Message)
    → now ≤ now'
    → Settled txs q now m
    → (is_accepted m.status ≡ true → mem_id m.id ids ≡ false → queued m.id q' ≡ true)
    → Change q' (expires ids m) m (expire_row now' ids m)
unfolding expire_row times_violated
expire_row-Change now now' ids txs q q' m late s w = elim (Bool-cases (expires ids m)) [
  | inl e ↦
      rw (e, expire_row)
        (record {
          same_id = refl;
          same_cost = refl;
          same_accepted = refl;
          refundable = ground arith;
          first_time = λ h. ground arith;
          still_waiting = λ h. ground arith;
          still_unsent = λ h. ground arith;
          in_time = ground (arith, s.unsent);
        })
  | inr e ↦ rw (e, expire_row) (Change-same txs q q' now m s (λ h. w h (ground (arith, h, e))))
]

expire_run :
    (now now' : ℕ) (new_id : ℕ → ℕ) (locked : ℕ → Bool) (limit : ℕ) (d : Db)
    → now ≤ now'
    → Inv now d
    → After (λ _ d'. Inv now' d') (expire now' new_id locked limit d)
unfolding expire
expire_run now now' new_id locked limit d late v =
    let ids = due now' locked limit d.queue in
    let rs = refunds_where (expires ids) d.messages in
    let gone = map (λ (r : Refund). r.message_id) rs in
    let updated : Db = record d { messages = map (expire_row now' ids) d.messages } in
    After-bind (λ _ d'. Refunded rs updated d') (λ _ d'. Inv now' d') (apply_refunds now' new_id rs)
      _ updated (apply_refunds-Refunded now' new_id rs updated)
      λ _ d' r.
        let q = delete_ids gone d'.queue in
        let same : q ≡ delete_ids gone d.queue = ap (delete_ids gone) r.same_queue in
        Inv-update now now' (expire_row now' ids) (expires ids) q d (record d' { queue = q }) late v
          (expire_row_id now' ids)
          (rw same (
            All-imp _ _ d.messages
              (λ m s.
                expire_row-Change now now' ids d.transactions d.queue (delete_ids gone d.queue) m
                  late s
                  (λ e out.
                    queued-delete_ids gone m.id d.queue (refunded-due ids m.id d.messages out)
                    ∙ s.waiting e))
              v.settled))
          (Refunded-queue rs q updated d' r)

-- Expiring overdue messages keeps the invariant.
pub expire-Inv :
    (now now' : ℕ) (new_id : ℕ → ℕ) (locked : ℕ → Bool) (limit : ℕ) (d : Db)
    → now ≤ now'
    → Inv now d
    → Inv now' (with_tx (expire now' new_id locked limit) d).1
expire-Inv now now' new_id locked limit d late v =
    with_tx_lem (Inv now') (expire now' new_id locked limit) d (Inv-later now now' d late v)
      (expire_run now now' new_id locked limit d late v)

flag_row-Change :
    (now now' : ℕ) (ids : List ℕ) (txs : List Transaction) (q : List QueueRow) (m : Message)
    → Settled txs q now m
    → Change q false m (flag_row now' ids m)
unfolding flag_row times_violated
flag_row-Change now now' ids txs q m s = elim (Bool-cases (mem_id m.id ids)) [
  | inl e ↦
      rw (e, flag_row)
        (record {
          same_id = refl;
          same_cost = refl;
          same_accepted = refl;
          refundable = ground arith;
          first_time = λ h. cc;
          still_waiting = s.waiting;
          still_unsent = s.unsent;
          in_time = s.timely;
        })
  | inr e ↦ rw (e, flag_row) (Change-same txs q q now m s s.waiting)
]

-- Flagging breaches keeps the invariant.
pub flag_sla-Inv :
    (now now' sla limit : ℕ) (d : Db)
    → now ≤ now'
    → Inv now d
    → Inv now' (with_tx (flag_sla now' sla limit) d).1
unfolding flag_sla with_tx
flag_sla-Inv now now' sla limit d late v =
    let ids = flagged_ids now' sla limit d in
    Inv-map now now' (flag_row now' ids) d.queue d late v (flag_row_id now' ids) (
      All-imp _ _ d.messages (λ m s. flag_row-Change now now' ids d.transactions d.queue m s)
        v.settled)

absent_unfinished :
    (i : ℕ) (ms : List Message) → has_message i ms ≡ false → finished_message i ms ≡ false
unfolding has_message finished_message
absent_unfinished i [] h = refl
absent_unfinished i (m ∷ ms) h = ground (arith, absent_unfinished i ms)

-- A queue row of an accepted message is no orphan.
accepted_unfinished :
    (ms : List Message)
    → Distinct ms
    → All (λ m. is_accepted m.status ≡ true → finished_message m.id ms ≡ false) ms
unfolding finished_message
accepted_unfinished [] u = tt
accepted_unfinished (m ∷ ms) u = (
  (λ e. ground (arith, e, absent_unfinished m.id ms u.0)),
  All-zip _ _ _ ms (λ m' ne h e. ground (arith, ne, h e)) (others_differ m.id ms u.0)
      (accepted_unfinished ms u.1),
)

unfinished_stays :
    (now n : ℕ) (locked : ℕ → Bool) (ms : List Message) (i : ℕ) (qs : List QueueRow)
    → finished_message i ms ≡ false
    → mem_id i (
        take n (
          map
            (λ q. q.message_id)
            (keep
              (λ q. finished_message q.message_id ms && (unheld now q && not (locked q.message_id)))
              qs)))
      ≡ false
unfinished_stays now zero locked ms i qs h = mem_id-nil i
unfinished_stays now (suc n) locked ms i [] h = mem_id-nil i
unfinished_stays now (suc n) locked ms i (q ∷ qs) h =
    elim (Bool-cases
      (finished_message q.message_id ms && (unheld now q && not (locked q.message_id)))) [
        | inl e ↦
            rw (e, mem_id-cons i q.message_id)
              (ground (
                arith,
                e,
                h,
                unfinished_stays now n locked ms i qs h,
                ap (λ j. finished_message j ms) {x = q.message_id} {y = i},
              ))
        | inr e ↦ rw e (unfinished_stays now (suc n) locked ms i qs h)
      ]

-- Removing orphaned queue rows keeps the invariant: the row of an accepted message stays.
pub remove_orphans-Inv :
    (now now' : ℕ) (locked : ℕ → Bool) (limit : ℕ) (d : Db)
    → now ≤ now'
    → Inv now d
    → Inv now' (with_tx (remove_orphans now' locked limit) d).1
unfolding remove_orphans with_tx orphan_ids
remove_orphans-Inv now now' locked limit d late v =
    Inv-rows now now' (delete_ids (orphan_ids now' locked limit d) d.queue) d late v (
      All-zip (Settled d.transactions d.queue now)
        (λ m. is_accepted m.status ≡ true → finished_message m.id d.messages ≡ false) _ d.messages
        (λ m s f e.
          queued-delete_ids (orphan_ids now' locked limit d) m.id d.queue
            (unfinished_stays now' limit locked d.messages m.id d.queue (f e))
          ∙ s.waiting e)
        v.settled (accepted_unfinished d.messages v.distinct))
