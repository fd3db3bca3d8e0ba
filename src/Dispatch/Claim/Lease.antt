-- ===== src/Dispatch/Claim/Lease.antt =====
-- What a lease promises: a later claim fences off the outcomes of an earlier one.
use sms_gateway.Common.{
  ℕ, ◌≤◌, ◌≡◌, refl, ◌∙◌, inl, inr, Bool, true, false, List, [], ◌∷◌, map, ◌==◌, ==_iff, arith, any,
  keep, leb, ◌&&◌, take, All, All-append, Bool-cases, zero, suc,
}
use sms_gateway.Common.Text.{Text}
use sms_gateway.Message.{Message}
use sms_gateway.Store.Tables.{QueueRow, Db, mem_id, queued}
use sms_gateway.Invariant.{Inv}
use sms_gateway.Invariant.Update.{Inv-queue}
use sms_gateway.Dispatch.Job.{Job, Outcome}
use sms_gateway.Dispatch.Claim.{insert_row, sort_rows, picked, lease, job_of, jobs_of, claim}

queued-lease :
    (now duration : ℕ) (w : Text) (ids : List ℕ) (i : ℕ) (q : List QueueRow)
    → queued i (map (lease now w duration ids) q) ≡ queued i q
unfolding queued lease
queued-lease now duration w ids i [] = refl
queued-lease now duration w ids i (r ∷ q) = ground (arith, queued-lease now duration w ids i q)

-- A claim keeps the invariant.
pub claim-Inv :
    (now now' : ℕ) (locked : ℕ → Bool) (w : Text) (duration : ℕ) (lane : Text) (n : ℕ) (d : Db)
    → now ≤ now'
    → Inv now d
    → Inv now' (claim now' locked w duration lane n d).1
unfolding claim
claim-Inv now now' locked w duration lane n d late v =
    Inv-queue now now' _ d late v
      (λ i h. queued-lease now' duration w (picked now' locked lane n d) i d.queue ∙ h)

-- No row is of one of the messages.
abbrev pub Unleased : List ℕ → List QueueRow → Type 0
Unleased ids = All (λ q. mem_id q.message_id ids ≡ false)

insert_row-Unleased :
    (ids : List ℕ) (q : QueueRow) (qs : List QueueRow)
    → mem_id q.message_id ids ≡ false
    → Unleased ids qs
    → Unleased ids (insert_row q qs)
unfolding insert_row
insert_row-Unleased ids q [] h k = (h, tt)
insert_row-Unleased ids q (r ∷ qs) h k = ground (arith, insert_row-Unleased ids q qs h k.1)

pub sort_rows-Unleased :
    (ids : List ℕ) (qs : List QueueRow) → Unleased ids qs → Unleased ids (sort_rows qs)
unfolding sort_rows
sort_rows-Unleased ids [] k = tt
sort_rows-Unleased ids (q ∷ qs) k =
    insert_row-Unleased ids q (sort_rows qs) k.0 (sort_rows-Unleased ids qs k.1)

pub take-Unleased :
    (ids : List ℕ) (n : ℕ) (qs : List QueueRow)
    → Unleased ids qs
    → All (λ i. mem_id i ids ≡ false) (map (λ q. q.message_id) (take n qs))
take-Unleased ids zero qs k = tt
take-Unleased ids (suc n) [] k = tt
take-Unleased ids (suc n) (q ∷ qs) k = (k.0, take-Unleased ids n qs k.1)

-- Jobs are of picked messages.
pub jobs_of-mem :
    (now : ℕ) (ids : List ℕ) (ms : List Message) (qs : List QueueRow)
    → All (λ j. mem_id j.id ids ≡ true) (jobs_of now ids ms qs)
unfolding jobs_of
jobs_of-mem now ids ms [] = tt
jobs_of-mem now ids ms (q ∷ qs) = elim (Bool-cases (mem_id q.message_id ids)) [
  | inl e ↦
      rw (e, jobs_of)
        (All-append _ _ (jobs_of now ids ms qs) (joined q ms e) (jobs_of-mem now ids ms qs))
  | inr e ↦ rw (e, jobs_of) (jobs_of-mem now ids ms qs)
]
  where
    joined :
        (q : QueueRow) (ms : List Message)
        → mem_id q.message_id ids ≡ true
        → All
            (λ j. mem_id j.id ids ≡ true)
            (map (job_of now q) (keep (λ m. m.id == q.message_id) ms))
    joined q [] e = tt
    joined q (m ∷ ms) e = ground (arith, joined q ms e)

pub mem_id-All :
    (k : ℕ) (xs ys : List ℕ)
    → All (λ i. mem_id i xs ≡ false) ys
    → mem_id k ys ≡ true
    → mem_id k xs ≡ false
unfolding mem_id
mem_id-All k xs [] h e = cc
mem_id-All k xs (y ∷ ys) h e = elim (Bool-cases (y == k)) [
  | inl hit ↦ rw (← (==_iff y k).0 hit) h.0
  | inr miss ↦ mem_id-All k xs ys h.1 (ground (arith, miss))
]

pub job_ids-mem :
    (k : ℕ) (ids : List ℕ) (js : List Job)
    → All (λ j. mem_id j.id ids ≡ true) js
    → mem_id k ids ≡ false
    → mem_id k (map (λ j. j.id) js) ≡ false
unfolding mem_id
job_ids-mem k ids [] h e = refl
job_ids-mem k ids (j ∷ js) h e = ground (arith, job_ids-mem k ids js h.1 e)

-- The message's rows were leased under the outcome's version or a later one.
abbrev pub Claimed : Outcome → List QueueRow → Type 0
Claimed o = All (λ q. q.message_id ≡ o.job.id → o.job.lease_version ≤ q.lease_version)

-- The outcome is of the same message as `o`, and of the same lease or an earlier one.
abbrev pub is_stale : Outcome → Outcome → Bool
is_stale o x = x.job.id == o.job.id && leb x.job.lease_version o.job.lease_version

-- No row is the lease of a stale outcome.
Fenced : Outcome → QueueRow → Type 0
Fenced o q =
    (x : Outcome)
    → is_stale o x ≡ true
    → (q.message_id == x.job.id && q.lease_version == x.job.lease_version) ≡ false

-- The filter of `lockOwned` by the rows that it locked.
abbrev own : List QueueRow → List Outcome → List Outcome
own qs =
    keep (λ x. any (λ q. q.message_id == x.job.id && q.lease_version == x.job.lease_version) qs)
