-- ===== src/Dispatch/Completer/Again.antt =====
-- A batch that has been committed owns no lease any more: committing it again does nothing.
use sms_gateway.Common.{
  ℕ, ◌≡◌, refl, sym, ◌∙◌, Bool, true, false, ◌&&◌, ◌||◌, not, List, [], ◌∷◌, arith, any, keep, ◌==◌,
  All, All-imp, Bool-cases, inl, inr,
}
use sms_gateway.Common.Text.{Text}
use sms_gateway.Store.Tables.{QueueRow, Db, is_text, mem_id}
use sms_gateway.Store.Tx.{ok, After, After-bind}
use sms_gateway.Dispatch.Job.{Outcome}
use sms_gateway.Dispatch.Completer.{
  holds_lease, lock_owned, sort_outcomes, commit_sent, commit_retry, commit_deferred,
  commit_terminal, unless_empty, of_kind, is_sent_kind, is_retry_kind, is_deferred_kind,
  is_terminal_kind, commit,
}
use sms_gateway.Dispatch.Completer.Frees.{
  Free, names, Frees, sent-Frees, retry-Frees, deferred-Frees, terminal-Frees, step-Frees, kinds,
}

module _ (w : Text) where
  -- The rows that hold the lease of an outcome of the batch are those of the owned outcomes.
  leased_by : List Outcome → ℕ → ℕ → Bool
  leased_by batch i v = any (λ o. i == o.job.id && v == o.job.lease_version) batch

  held_outside : List Outcome → List Outcome → ℕ → ℕ → Bool
  held_outside batch owned i v = leased_by batch i v && not (names w owned i v)

  kept_any :
      (p : QueueRow → Bool) (qs : List QueueRow)
      → All (λ q. p q ≡ true → (g : QueueRow → Bool) → g q ≡ true → any g (keep p qs) ≡ true) qs
  kept_any p [] = tt
  kept_any p (q ∷ qs) = (
    λ h g e. rw (h, e) refl,
    All-imp _ _ qs
        (λ r old h g e. elim (Bool-cases (p q)) [
          | inl f ↦ rw f (ground (arith, old h g e))
          | inr f ↦ rw f (old h g e)
        ])
        (kept_any p qs),
  )

  kept_named :
      (h : Outcome → Bool) (i v : ℕ) (batch : List Outcome)
      → ((o : Outcome) → (i == o.job.id && v == o.job.lease_version) ≡ true → h o ≡ true)
      → leased_by batch i v ≡ true
      → names w (keep h batch) i v ≡ true
  unfolding mem_id leased_by
  kept_named h i v [] k e = e
  kept_named h i v (o ∷ batch) k e = elim (Bool-cases (i == o.job.id && v == o.job.lease_version)) [
    | inl hit ↦ rw (k o hit) (ground (arith, hit))
    | inr miss ↦
        let rest = kept_named h i v batch k (ground (arith, miss, e)) in
        elim (Bool-cases (h o)) [ inl f ↦ rw f (ground (arith, rest)) | inr f ↦ rw f rest ]
  ]

  holds-leased_by :
      (q : QueueRow) (batch : List Outcome)
      → any (λ o. holds_lease w o q) batch
        ≡ (leased_by batch q.message_id q.lease_version && is_text q.lease_owner w)
  unfolding leased_by
  holds-leased_by q [] = refl
  holds-leased_by q (o ∷ batch) = ground (arith, holds-leased_by q batch)

  none_outside :
      (batch : List Outcome) (qs : List QueueRow)
      → All (Free w (held_outside batch (lock_owned w batch qs))) qs
  unfolding lock_owned held_outside
  none_outside batch qs =
      All-imp _ _ qs
        (λ q member. elim (Bool-cases (any (λ o. holds_lease w o q) batch)) [
          | inl held ↦
              let both = sym (holds-leased_by q batch) ∙ held in
              let named =
                kept_named
                  (λ o.
                    any (λ r. r.message_id == o.job.id && r.lease_version == o.job.lease_version)
                      (keep (λ q. any (λ o. holds_lease w o q) batch) qs))
                  q.message_id q.lease_version batch (λ o e. member held _ e)
                  (ground (arith, both)) in
              rw named (ground arith)
          | inr free ↦ let both = sym (holds-leased_by q batch) ∙ free in ground (arith, both)
        ])
        (kept_any (λ q. any (λ o. holds_lease w o q) batch) qs)

  -- Where the worker holds no lease of the batch, nothing is owned.
  unleased_owned :
      (batch : List Outcome) (qs : List QueueRow)
      → All (Free w (leased_by batch)) qs
      → lock_owned w batch qs ≡ []
  unfolding lock_owned
  unleased_owned batch qs h = rw (none_current qs h) (none_left batch)
    where
      none_current :
          (qs : List QueueRow)
          → All (Free w (leased_by batch)) qs
          → keep (λ q. any (λ o. holds_lease w o q) batch) qs ≡ []
      none_current [] h = refl
      none_current (q ∷ qs) h = rw (holds-leased_by q batch, h.0) (none_current qs h.1)

      none_left : (os : List Outcome) → keep (λ o. false) os ≡ []
      none_left [] = refl
      none_left (o ∷ os) = none_left os

  row_free :
      (t a b c e l n : Bool)
      → (a && t) ≡ false
      → (b && t) ≡ false
      → (c && t) ≡ false
      → (e && t) ≡ false
      → ((l && not n) && t) ≡ false
      → (n ≡ true → (a || (b || (c || e))) ≡ true)
      → (l && t) ≡ false
  row_free t a b c e l n ha hb hc he z k = ground (arith, ha, hb, hc, he, z, k)

  all_free :
      (batch owned : List Outcome) (qs : List QueueRow)
      → All (Free w (names w (of_kind is_sent_kind owned))) qs
      → All (Free w (names w (of_kind is_retry_kind owned))) qs
      → All (Free w (names w (of_kind is_deferred_kind owned))) qs
      → All (Free w (names w (of_kind is_terminal_kind owned))) qs
      → All (Free w (held_outside batch owned)) qs
      → All (Free w (leased_by batch)) qs
  unfolding held_outside
  all_free batch owned [] a b c e z = tt
  all_free batch owned (q ∷ qs) a b c e z = (
    row_free (is_text q.lease_owner w)
        (names w (of_kind is_sent_kind owned) q.message_id q.lease_version)
        (names w (of_kind is_retry_kind owned) q.message_id q.lease_version)
        (names w (of_kind is_deferred_kind owned) q.message_id q.lease_version)
        (names w (of_kind is_terminal_kind owned) q.message_id q.lease_version)
        (leased_by batch q.message_id q.lease_version) (names w owned q.message_id q.lease_version)
        a.0 b.0 c.0 e.0 z.0 (kinds w owned q.message_id q.lease_version),
    all_free batch owned qs a.1 b.1 c.1 e.1 z.1,
  )

  module _ (now sla : ℕ) (new_id : ℕ → ℕ) (batch : List Outcome) where
    -- A commit leaves the worker no lease of its batch.
    pub commit_disowns :
        (d : Db)
        → After
            (λ _ d'. lock_owned w (sort_outcomes batch) d'.queue ≡ [])
            (commit now new_id sla w batch d)
    unfolding commit
    commit_disowns d =
        let sorted = sort_outcomes batch in
        let owned = lock_owned w sorted d.queue in
        let sents = of_kind is_sent_kind owned in
        let retries = of_kind is_retry_kind owned in
        let deferrals = of_kind is_deferred_kind owned in
        let ends_ = of_kind is_terminal_kind owned in
        After-bind (λ _ d'. Frees w sents d d') _ (unless_empty [] (commit_sent now sla w) sents) _
          d (step-Frees w [] (commit_sent now sla w) sents d (sent-Frees w now sla sents d))
          λ _ d₁ s₁.
            After-bind (λ _ d'. Frees w retries d₁ d') _
              (unless_empty [] (commit_retry now w) retries) _ d₁
              (step-Frees w [] (commit_retry now w) retries d₁ (retry-Frees w now retries d₁))
              λ _ d₂ s₂.
                After-bind (λ _ d'. Frees w deferrals d₂ d') _
                  (unless_empty [] (commit_deferred now w) deferrals) _ d₂
                  (step-Frees w [] (commit_deferred now w) deferrals d₂
                    (deferred-Frees w now deferrals d₂))
                  λ _ d₃ s₃.
                    After-bind (λ _ d'. Frees w ends_ d₃ d') _
                      (unless_empty (record { applied = []; refunded = 0 })
                        (commit_terminal now new_id w) ends_)
                      _ d₃
                      (step-Frees w _ (commit_terminal now new_id w) ends_ d₃
                        (terminal-Frees w now new_id ends_ d₃))
                      λ _ d₄ s₄. unleased_owned sorted d₄.queue (
                        all_free sorted owned d₄.queue
                          (s₄.stays _ (s₃.stays _ (s₂.stays _ s₁.freed)))
                          (s₄.stays _ (s₃.stays _ s₂.freed)) (s₄.stays _ s₃.freed) s₄.freed
                          (s₄.stays _
                            (s₃.stays _ (s₂.stays _ (s₁.stays _ (none_outside sorted d.queue))))))

    -- Then a commit of the batch changes nothing and reports nothing.
    pub commit_idle :
        (d : Db)
        → lock_owned w (sort_outcomes batch) d.queue ≡ []
        → commit now new_id sla w batch d ≡ ok (record { applied = []; refunded = 0 }, d)
    unfolding commit unless_empty
    commit_idle d h = rw h refl
