-- ===== src/Dispatch/Claim/Held.antt =====
-- The queue rows of claimed messages, which are not due before their lease ends, through claims and
-- commits.
use sms_gateway.Common.{
  ℕ, ◌<◌, ◌≡◌, refl, sym, ap, ◌∙◌, ◌==◌, Bool, true, false, ◌&&◌, ◌||◌, leb, none, List, [], ◌∷◌,
  map, ltb, arith, keep, All, Bool-cases, inl, inr,
}
use sms_gateway.Common.Text.{Text}
use sms_gateway.Message.{Message}
use sms_gateway.Store.Tables.{QueueRow, Db, mem_id}
use sms_gateway.Store.Tx.{Tx, After, After-bind}
use sms_gateway.Billing.{refunds_where, apply_refunds}
use sms_gateway.Billing.Apply.{Refunded, apply_refunds-Refunded}
use sms_gateway.Paging.Sorted.{All-keep}
use sms_gateway.Dispatch.Job.{Outcome}
use sms_gateway.Dispatch.Claim.{is_ready, picked, lease}
use sms_gateway.Dispatch.Claim.Lease.{mem_id-All, sort_rows-Unleased, take-Unleased}
use sms_gateway.Dispatch.Completer.Commit.{After-unless_empty}
use sms_gateway.Dispatch.Completer.{
  find_outcome, insert_outcome, lock_owned, sort_outcomes, delete_queue_rows, release,
  pending_delays, with_last_delay, commit_sent, commit_retry, commit_deferred, update_terminal,
  ends, commit_terminal, unless_empty, of_kind, is_sent_kind, is_retry_kind, is_deferred_kind,
  is_terminal_kind, commit,
}

module _ (until : ℕ) (ids : List ℕ) where
  -- No row of the messages is due before `until`.
  abbrev pub Held : QueueRow → Type 0
  Held q = (mem_id q.message_id ids && ltb q.next_attempt_at until) ≡ false

  -- The outcome does not put one of the messages back into the queue.
  abbrev pub returns : Outcome → Bool
  returns o = (is_retry_kind o.kind || is_deferred_kind o.kind) && mem_id o.job.id ids

  abbrev pub AllHeld : Db → Type 0
  AllHeld d = All Held d.queue

  abbrev pub Holds : {A : Type 0} → A → Db → Type 0
  Holds _ d = AllHeld d

  -- Rows that are held are not ready, so they are not picked and stay as they are.
  ready-apart :
      (t : ℕ) (locked : ℕ → Bool) (lane : Text) (ms : List Message) (qs : List QueueRow)
      → t < until
      → All Held qs
      → All (λ q. mem_id q.message_id ids ≡ false) (keep (is_ready t locked lane ms) qs)
  unfolding is_ready
  ready-apart t locked lane ms [] h k = tt
  ready-apart t locked lane ms (q ∷ qs) h k =
      ground (arith, k.0, ready-apart t locked lane ms qs h k.1)

  pub picked-apart :
      (t n : ℕ) (locked : ℕ → Bool) (lane : Text) (d : Db)
      → t < until
      → AllHeld d
      → All (λ i. mem_id i ids ≡ false) (picked t locked lane n d)
  unfolding picked
  picked-apart t n locked lane d h k =
      take-Unleased ids n _
        (sort_rows-Unleased ids _ (ready-apart t locked lane d.messages d.queue h k))

  pub lease-Held :
      (t duration : ℕ) (w : Text) (js : List ℕ) (qs : List QueueRow)
      → All (λ i. mem_id i ids ≡ false) js
      → All Held qs
      → All Held (map (lease t w duration js) qs)
  unfolding lease
  lease-Held t duration w js [] a k = tt
  lease-Held t duration w js (q ∷ qs) a k = (
    elim (Bool-cases (mem_id q.message_id js)) [
      | inl e ↦ rw e (rw (mem_id-All q.message_id ids js a e) refl)
      | inr e ↦ rw e k.0
    ],
    lease-Held t duration w js qs a k.1,
  )

  abbrev Apart : List Outcome → Type 0
  Apart = All (λ o. mem_id o.job.id ids ≡ false)

  find-Apart :
      (i : ℕ) (os : List Outcome) → Apart os → mem_id i ids ≡ true → find_outcome i os ≡ none
  unfolding find_outcome
  find-Apart i [] a e = refl
  find-Apart i (o ∷ os) a e = elim (Bool-cases (o.job.id == i)) [
    | inl hit ↦
        let same : o.job.id ≡ i = ground (arith, hit) in
        absurd (true_not_false (sym e ∙ sym (ap (λ x. mem_id x ids) same) ∙ a.0))
    | inr miss ↦ rw miss (find-Apart i os a.1 e)
  ]
    where
      true_not_false : true ≡ false → ⊥
      true_not_false h = cc

  -- What a release does to rows that its outcomes do not name.
  release-Held :
      (now : ℕ) (w : Text) (os : List Outcome) (qs : List QueueRow)
      → Apart os
      → All Held qs
      → All Held (map (release now w os) qs)
  unfolding release
  release-Held now w os [] a k = tt
  release-Held now w os (q ∷ qs) a k =
      (ground (arith, k.0, find-Apart q.message_id os a), release-Held now w os qs a k.1)

  sent-Held :
      (now sla : ℕ) (w : Text) (os : List Outcome) (d : Db)
      → AllHeld d
      → After Holds (commit_sent now sla w os d)
  unfolding commit_sent delete_queue_rows
  sent-Held now sla w os d k = All-keep (λ q. q.message_id) Held _ d.queue k

  deferred-Held :
      (now : ℕ) (w : Text) (os : List Outcome) (d : Db)
      → Apart os
      → AllHeld d
      → After Holds (commit_deferred now w os d)
  unfolding commit_deferred
  deferred-Held now w os d a k = release-Held now w os d.queue a k

  terminal-Held :
      (now : ℕ) (new_id : ℕ → ℕ) (w : Text) (os : List Outcome) (d : Db)
      → AllHeld d
      → After Holds (commit_terminal now new_id w os d)
  unfolding commit_terminal delete_queue_rows
  terminal-Held now new_id w os d k =
      let updated : Db = record d { messages = map (update_terminal now os) d.messages } in
      let rs = refunds_where (ends os) d.messages in
      After-bind (λ _ d'. Refunded rs updated d') Holds (apply_refunds now new_id rs) _ updated
        (apply_refunds-Refunded now new_id rs updated)
        λ _ d' r. All-keep (λ q. q.message_id) Held _ d'.queue (rw r.same_queue k)

  with_delays-Apart : (all os : List Outcome) → Apart os → Apart (map (with_last_delay all) os)
  unfolding with_last_delay
  with_delays-Apart all [] a = tt
  with_delays-Apart all (o ∷ os) a = (a.0, with_delays-Apart all os a.1)

  retry-Held :
      (now : ℕ) (w : Text) (os : List Outcome) (d : Db)
      → Apart os
      → AllHeld d
      → After Holds (commit_retry now w os d)
  unfolding commit_retry delete_queue_rows pending_delays
  retry-Held now w os d a k =
      All-keep (λ q. q.message_id) Held _ _
        (release-Held now w _ d.queue
          (with_delays-Apart os _
            (All-keep (λ o. o.job.id) (λ o. mem_id o.job.id ids ≡ false) _ os a))
          k)

  insert-All :
      (P : Outcome → Type 0) (o : Outcome) (os : List Outcome)
      → P o
      → All P os
      → All P (insert_outcome o os)
  unfolding insert_outcome
  insert-All P o [] p a = (p, tt)
  insert-All P o (x ∷ os) p a = elim (Bool-cases (leb o.job.id x.job.id)) [
    | inl e ↦ rw e (p, a)
    | inr e ↦ rw e (a.0, insert-All P o os p a.1)
  ]

  sort-All : (P : Outcome → Type 0) (os : List Outcome) → All P os → All P (sort_outcomes os)
  unfolding sort_outcomes
  sort-All P [] a = tt
  sort-All P (o ∷ os) a = insert-All P o (sort_outcomes os) a.0 (sort-All P os a.1)

  abbrev NoReturns : List Outcome → Type 0
  NoReturns = All (λ o. returns o ≡ false)

  retries-Apart : (os : List Outcome) → NoReturns os → Apart (of_kind is_retry_kind os)
  retries-Apart [] a = tt
  retries-Apart (o ∷ os) a = elim (Bool-cases (is_retry_kind o.kind)) [
    | inl e ↦ rw e (ground (arith, a.0, e), retries-Apart os a.1)
    | inr e ↦ rw e (retries-Apart os a.1)
  ]

  deferrals-Apart : (os : List Outcome) → NoReturns os → Apart (of_kind is_deferred_kind os)
  deferrals-Apart [] a = tt
  deferrals-Apart (o ∷ os) a = elim (Bool-cases (is_deferred_kind o.kind)) [
    | inl e ↦ rw e (ground (arith, a.0, e), deferrals-Apart os a.1)
    | inr e ↦ rw e (deferrals-Apart os a.1)
  ]

  owned-NoReturns :
      (w : Text) (batch : List Outcome) (qs : List QueueRow)
      → NoReturns batch
      → NoReturns (lock_owned w (sort_outcomes batch) qs)
  unfolding lock_owned
  owned-NoReturns w batch qs a =
      All-keep (λ o. o.job.id) (λ o. returns o ≡ false) _ (sort_outcomes batch)
        (sort-All (λ o. returns o ≡ false) batch a)

  step-Held :
      {A : Type 0} (a : A) (step : List Outcome → Tx A) (os : List Outcome) (d : Db)
      → AllHeld d
      → After Holds (step os d)
      → After Holds (unless_empty a step os d)
  step-Held a step os d k h = After-unless_empty Holds a step os d k h

  pub commit-Held :
      (now sla : ℕ) (new_id : ℕ → ℕ) (w : Text) (batch : List Outcome) (d : Db)
      → NoReturns batch
      → AllHeld d
      → After Holds (commit now new_id sla w batch d)
  unfolding commit
  commit-Held now sla new_id w batch d a k =
      let owned = lock_owned w (sort_outcomes batch) d.queue in
      let none = owned-NoReturns w batch d.queue a in
      let sents = of_kind is_sent_kind owned in
      let retries = of_kind is_retry_kind owned in
      let deferrals = of_kind is_deferred_kind owned in
      let ends_ = of_kind is_terminal_kind owned in
      After-bind Holds Holds (unless_empty [] (commit_sent now sla w) sents) _ d
        (step-Held [] (commit_sent now sla w) sents d k (sent-Held now sla w sents d k))
        λ _ d₁ k₁.
          After-bind Holds Holds (unless_empty [] (commit_retry now w) retries) _ d₁
            (step-Held [] (commit_retry now w) retries d₁ k₁
              (retry-Held now w retries d₁ (retries-Apart owned none) k₁))
            λ _ d₂ k₂.
              After-bind Holds Holds (unless_empty [] (commit_deferred now w) deferrals) _ d₂
                (step-Held [] (commit_deferred now w) deferrals d₂ k₂
                  (deferred-Held now w deferrals d₂ (deferrals-Apart owned none) k₂))
                λ _ d₃ k₃.
                  After-bind Holds Holds
                    (unless_empty (record { applied = []; refunded = 0 })
                      (commit_terminal now new_id w) ends_)
                    _ d₃
                    (step-Held _ (commit_terminal now new_id w) ends_ d₃ k₃
                      (terminal-Held now new_id w ends_ d₃ k₃))
                    λ _ d₄ k₄. k₄
