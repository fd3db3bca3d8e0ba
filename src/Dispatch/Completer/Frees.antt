-- ===== src/Dispatch/Completer/Frees.antt =====
-- Each step of a commit takes the queue rows of its outcomes from the worker.
use sms_gateway.Common.{
  ℕ, ◌≡◌, refl, ap, Bool, true, false, ◌&&◌, ◌||◌, not, List, [], ◌∷◌, map, arith, keep, All,
  All-zip, Bool-cases, inl, inr,
}
use sms_gateway.Common.Text.{Text}
use sms_gateway.Message.{is_accepted}
use sms_gateway.Store.Tables.{QueueRow, Db, is_text, mem_id}
use sms_gateway.Store.Tx.{Tx, After, After-bind}
use sms_gateway.Billing.{refunds_where, apply_refunds}
use sms_gateway.Billing.Apply.{Refunded, apply_refunds-Refunded}
use sms_gateway.Paging.Sorted.{All-keep}
use sms_gateway.Dispatch.Job.{
  Outcome, OutcomeKind, outcome_sent, outcome_retry, outcome_deferred, outcome_failed,
  outcome_expired,
}
use sms_gateway.Dispatch.Completer.{
  job_id, joins, delete_queue_rows, release, pending_delays, commit_sent, commit_retry,
  commit_deferred, update_terminal, ends, commit_terminal, unless_empty, of_kind, is_sent_kind,
  is_retry_kind, is_deferred_kind, is_terminal_kind, changed_ids, with_last_delay,
}
use sms_gateway.Dispatch.Completer.Keeps.{mem_id-joins, mem_id-keep}
use sms_gateway.Dispatch.Completer.Commit.{After-unless_empty}

module _ (w : Text) where
  -- The worker does not hold the row, if `f` picks its message and version.
  abbrev pub Free : (ℕ → ℕ → Bool) → QueueRow → Type 0
  Free f q = (f q.message_id q.lease_version && is_text q.lease_owner w) ≡ false

  abbrev pub names : List Outcome → ℕ → ℕ → Bool
  names os i v = mem_id i (map job_id os)

  -- A step takes the rows of its outcomes from the worker, and gives it none.
  pub record Frees (os : List Outcome) (d d' : Db) : Type 0 where
    pub stays : (f : ℕ → ℕ → Bool) → All (Free f) d.queue → All (Free f) d'.queue
    pub freed : All (Free (names os)) d'.queue

  release-Free :
      (now : ℕ) (os : List Outcome) (f : ℕ → ℕ → Bool) (qs : List QueueRow)
      → All (Free f) qs
      → All (Free f) (map (release now w os) qs)
  unfolding release
  release-Free now os f [] h = tt
  release-Free now os f (q ∷ qs) h = (ground (arith, h.0), release-Free now os f qs h.1)

  release-freed :
      (now : ℕ) (os : List Outcome) (qs : List QueueRow)
      → All (Free (names os)) (map (release now w os) qs)
  unfolding release
  release-freed now os [] = tt
  release-freed now os (q ∷ qs) =
      (ground (arith, mem_id-joins q.message_id os), release-freed now os qs)

  delete-Free :
      (ids : List ℕ) (f : ℕ → ℕ → Bool) (qs : List QueueRow)
      → All (Free f) qs
      → All (Free f) (delete_queue_rows w ids qs)
  unfolding delete_queue_rows
  delete-Free ids f qs h = All-keep (λ q. q.message_id) (Free f) _ qs h

  delete-freed :
      (ids : List ℕ) (qs : List QueueRow)
      → All (Free (λ i v. mem_id i ids)) (delete_queue_rows w ids qs)
  unfolding delete_queue_rows
  delete-freed ids [] = tt
  delete-freed ids (q ∷ qs) = ground (arith, delete-freed ids qs)

  Free-cover :
      (f g h : ℕ → ℕ → Bool) (qs : List QueueRow)
      → ((i v : ℕ) → h i v ≡ true → (f i v || g i v) ≡ true)
      → All (Free f) qs
      → All (Free g) qs
      → All (Free h) qs
  Free-cover f g h qs c =
      All-zip _ _ _ qs (λ q a b. ground (arith, a, b, c q.message_id q.lease_version))

  pub sent-Frees :
      (now sla : ℕ) (os : List Outcome) (d : Db)
      → After (λ _ d'. Frees os d d') (commit_sent now sla w os d)
  unfolding commit_sent
  sent-Frees now sla os d = record {
    stays = λ f h. delete-Free (map job_id os) f d.queue h;
    freed = delete-freed (map job_id os) d.queue;
  }

  pub deferred-Frees :
      (now : ℕ) (os : List Outcome) (d : Db)
      → After (λ _ d'. Frees os d d') (commit_deferred now w os d)
  unfolding commit_deferred
  deferred-Frees now os d = record {
    stays = λ f h. release-Free now os f d.queue h;
    freed = release-freed now os d.queue;
  }

  pub terminal-Frees :
      (now : ℕ) (new_id : ℕ → ℕ) (os : List Outcome) (d : Db)
      → After (λ _ d'. Frees os d d') (commit_terminal now new_id w os d)
  unfolding commit_terminal
  terminal-Frees now new_id os d =
      let updated : Db = record d { messages = map (update_terminal now os) d.messages } in
      let rs = refunds_where (ends os) d.messages in
      After-bind (λ _ d'. Refunded rs updated d') (λ _ d'. Frees os d d')
        (apply_refunds now new_id rs) _ updated (apply_refunds-Refunded now new_id rs updated)
        λ _ d' r. record {
          stays = λ f h. delete-Free (map job_id os) f d'.queue (rw r.same_queue h);
          freed = delete-freed (map job_id os) d'.queue;
        }

  ids-pending_delays :
      (pending : List ℕ) (os all : List Outcome)
      → map job_id (map (with_last_delay all) (keep (λ o. mem_id o.job.id pending) os))
        ≡ keep (λ i. mem_id i pending) (map job_id os)
  unfolding with_last_delay
  ids-pending_delays pending [] all = refl
  ids-pending_delays pending (o ∷ os) all = elim (Bool-cases (mem_id o.job.id pending)) [
    | inl e ↦ rw (e, ids-pending_delays pending os all) refl
    | inr e ↦ rw e (ids-pending_delays pending os all)
  ]

  pub retry-Frees :
      (now : ℕ) (os : List Outcome) (d : Db)
      → After (λ _ d'. Frees os d d') (commit_retry now w os d)
  unfolding commit_retry pending_delays
  retry-Frees now os d =
      let pending = changed_ids (λ m. joins os m.id && is_accepted m.status) d.messages in
      let finished = keep (λ i. not (mem_id i pending)) (map job_id os) in
      let again = pending_delays pending os in
      let released = map (release now w again) d.queue in
      record {
        stays = λ f h. delete-Free finished f released (release-Free now again f d.queue h);
        freed =
            Free-cover (names again) (λ i v. mem_id i finished) (names os)
              (delete_queue_rows w finished released)
              (λ i v h.
                rw
                  (
                    ap (mem_id i) (ids-pending_delays pending os os),
                    mem_id-keep i (λ j. mem_id j pending) (map job_id os),
                    mem_id-keep i (λ j. not (mem_id j pending)) (map job_id os),
                    h,
                  )
                  (ground arith))
              (delete-Free finished (names again) released (release-freed now again d.queue))
              (delete-freed finished released);
      }

  none_named : (qs : List QueueRow) → All (Free (names [])) qs
  unfolding mem_id
  none_named [] = tt
  none_named (q ∷ qs) = (refl, none_named qs)

  pub step-Frees :
      {A : Type 0} (a : A) (step : List Outcome → Tx A) (os : List Outcome) (d : Db)
      → After (λ _ d'. Frees os d d') (step os d)
      → After (λ _ d'. Frees os d d') (unless_empty a step os d)
  unfolding unless_empty
  step-Frees a step [] d h =
      After-unless_empty (λ _ d'. Frees [] d d') a step [] d
        (record { stays = λ f k. k; freed = none_named d.queue }) h
  step-Frees a step (o ∷ os) d h = h

  one_kind :
      (k : OutcomeKind)
      → (is_sent_kind k || (is_retry_kind k || (is_deferred_kind k || is_terminal_kind k))) ≡ true
  one_kind outcome_sent = refl
  one_kind outcome_retry = refl
  one_kind outcome_deferred = refl
  one_kind outcome_failed = refl
  one_kind outcome_expired = refl

  -- The outcomes of all kinds are all outcomes.
  pub kinds :
      (os : List Outcome) (i v : ℕ)
      → names os i v ≡ true
      → (names (of_kind is_sent_kind os) i v
          || (names (of_kind is_retry_kind os) i v
              || (names (of_kind is_deferred_kind os) i v
                  || names (of_kind is_terminal_kind os) i v)))
        ≡ true
  unfolding mem_id
  kinds [] i v h = h
  kinds (o ∷ os) i v h = ground (arith, one_kind o.kind, kinds os i v, h)
