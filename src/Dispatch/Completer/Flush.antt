-- ===== src/Dispatch/Completer/Flush.antt =====
-- internal/dispatch/completer.go: how a batch of outcomes is committed.
use sms_gateway.Common.{
  ℕ, ◌⊎◌, subst, sym, zero, suc, ◌+◌, ◌≡◌, refl, Bool, true, false, Option, none, some, List, [],
  ◌∷◌, length, if◌then◌else◌, arith, inl, inr,
}
use sms_gateway.Common.Text.{Text}
use sms_gateway.Store.Tables.{Db}
use sms_gateway.Store.Tx.{Error, Result, ok, err, After, with_tx, settle}
use sms_gateway.Batching.{choose}
use sms_gateway.Dispatch.Job.{
  Outcome, OutcomeKind, outcome_sent, outcome_retry, outcome_deferred, outcome_failed,
  outcome_expired,
}
use sms_gateway.Dispatch.Completer.{Progress, commit, lock_owned, sort_outcomes}
use sms_gateway.Dispatch.Completer.Again.{commit_disowns, commit_idle}

-- The counters of the worker that `count` raises.
pub record Counters : Type 0 where
  pub sent : ℕ
  pub retried : ℕ
  pub deferred : ℕ
  pub failed : ℕ
  pub expired : ℕ

abbrev count_one : OutcomeKind → Counters → Counters
count_one outcome_sent c = record c { sent = c.sent + 1 }
count_one outcome_retry c = record c { retried = c.retried + 1 }
count_one outcome_deferred c = record c { deferred = c.deferred + 1 }
count_one outcome_failed c = record c { failed = c.failed + 1 }
count_one outcome_expired c = record c { expired = c.expired + 1 }

-- `count`, but for the metrics
unfoldable pub count_all : List Outcome → Counters → Counters
count_all [] c = c
count_all (o ∷ os) c = count_all os (count_one o.kind c)

abbrev pub total : Counters → ℕ
total c = c.sent + c.retried + c.deferred + c.failed + c.expired

total-count_one : (k : OutcomeKind) (c : Counters) → total (count_one k c) ≡ suc (total c)
total-count_one outcome_sent c = omega arith
total-count_one outcome_retry c = omega arith
total-count_one outcome_deferred c = omega arith
total-count_one outcome_failed c = omega arith
total-count_one outcome_expired c = omega arith

total-count_all : (os : List Outcome) (c : Counters) → total (count_all os c) ≡ length os + total c
unfolding count_all
total-count_all [] c = omega arith
total-count_all (o ∷ os) c =
    omega (arith, total-count_all os (count_one o.kind c), total-count_one o.kind c)

-- How the connection fares in a transaction: the transaction ends and its result arrives; it fails before
-- the commit; or the server ends the transaction and the answer is lost, so that `Commit` returns an error
-- although the changes may be there.
pub data Fate : Type 0 where
  answered connection_failed answer_lost : Fate

-- What an attempt of `flush` meets besides the statements: the connection, and whether the sleep after a
-- failure is cut off. An attempt begins at `now n` and draws `new_id n`.
pub record Weather : Type 0 where
  pub fate : ℕ → Fate
  pub cut_off : ℕ → Bool
  pub now : ℕ → ℕ
  pub new_id : ℕ → ℕ → ℕ

-- What `flush` leaves; a batch that is not known to be committed is dropped with an entry in the log.
pub record Flushed : Type 0 where
  pub committed : Bool
  pub counters : Counters
  pub db : Db

module _ (env : Weather) (sla : ℕ) (w : Text) (batch : List Outcome) where
  abbrev pub commit_at : ℕ → Db → Result Progress × Db
  commit_at n d = with_tx (commit (env.now n) (env.new_id n) sla w batch) d

  -- What the worker gets of a transaction, `none` for the connection's error, and the tables after it.
  abbrev pub told : Fate → Db → Result Progress × Db → Option (Result Progress) × Db
  told answered d (r, d') = (some r, d')
  told connection_failed d (r, d') = (none, d)
  told answer_lost d (r, d') = (none, d')

  unfoldable pub attempt : ℕ → Db → Option (Result Progress) × Db
  attempt n d = told (env.fate n) d (commit_at n d)

  abbrev pub after_attempt : Option (Result Progress) × Db → Counters → Flushed → Flushed
  after_attempt (some (ok p), d) c next = record {
    committed = true;
    counters = count_all p.applied c;
    db = d;
  }
  after_attempt (some (err e), d) c next = next
  after_attempt (none, d) c next = next

  -- The loop of `flush`, with the attempts that are left: attempts are numbered from `n` on.
  unfoldable pub flush_from : ℕ → ℕ → Counters → Db → Flushed
  unfolding attempt
  flush_from zero n c d = record { committed = false; counters = c; db = d }
  flush_from (suc k) n c d =
      let r = attempt n d in
      let dropped : Flushed = record { committed = false; counters = c; db = r.1 } in
      let again = flush_from k (n + 1) c r.1 in
      after_attempt r c (if env.cut_off n then dropped else again)

  -- `flush`
  unfoldable pub flush : Counters → Db → Flushed
  unfolding flush_from
  flush c d = flush_from 3 1 c d

  -- The batch was committed by one attempt. Its applied outcomes were counted, or the answer was lost.
  pub record Committed (c : Counters) (d : Db) (f : Flushed) : Type 0 where
    pub number : ℕ
    pub progress : Progress
    pub result : (commit_at number d).0 ≡ ok progress
    pub tables : f.db ≡ (commit_at number d).1
    pub counted :
        (f.committed ≡ true) × (total f.counters ≡ length progress.applied + total c)
        ⊎ (env.fate number ≡ answer_lost) × (f.counters ≡ c)

  pub record Dropped (c : Counters) (d : Db) (f : Flushed) : Type 0 where
    pub dropped : f.committed ≡ false
    pub same_counters : f.counters ≡ c
    pub same_tables : f.db ≡ d

  abbrev pub Once : Counters → Db → Flushed → Type 0
  Once c d f = Dropped c d f ⊎ Committed c d f

  rolled_back : (n : ℕ) (d : Db) (e : Error) → (commit_at n d).0 ≡ err e → (commit_at n d).1 ≡ d
  unfolding with_tx
  rolled_back n d e h = go (commit (env.now n) (env.new_id n) sla w batch d) h
    where
      go : (r : Result (Progress × Db)) → (settle d r).0 ≡ err e → (settle d r).1 ≡ d
      go (ok (p, d')) h = cc
      go (err e') h = refl

  dropped_with : Counters → Db → Flushed
  dropped_with c d = record { committed = false; counters = c; db = d }

  -- The worker holds no lease of the batch.
  abbrev Disowned : Db → Type 0
  Disowned d = lock_owned w (sort_outcomes batch) d.queue ≡ []

  committed-Disowned :
      (n : ℕ) (d : Db) (p : Progress) → (commit_at n d).0 ≡ ok p → Disowned (commit_at n d).1
  unfolding with_tx
  committed-Disowned n d p h =
      go (commit (env.now n) (env.new_id n) sla w batch d) h
        (commit_disowns w (env.now n) sla (env.new_id n) batch d)
    where
      go :
          (r : Result (Progress × Db))
          → (settle d r).0 ≡ ok p
          → After (λ _ d'. Disowned d') r
          → Disowned (settle d r).1
      go (ok (p', d')) h a = a
      go (err e) h a = cc

  idle_commit :
      (n : ℕ) (d : Db)
      → Disowned d
      → commit_at n d ≡ (ok (record { applied = []; refunded = 0 }), d)
  unfolding with_tx
  idle_commit n d h = rw (commit_idle w (env.now n) sla (env.new_id n) batch d h) refl

  -- Further attempts change nothing, once the batch has been committed.
  Same : Counters → Db → Flushed → Type 0
  Same c d f = (f.counters ≡ c) × (f.db ≡ d)

  flush_from-Same : (k n : ℕ) (c : Counters) (d : Db) → Disowned d → Same c d (flush_from k n c d)
  unfolding flush_from attempt Same count_all
  flush_from-Same zero n c d h = (refl, refl)
  flush_from-Same (suc k) n c d h =
      rw (idle_commit n d h) (go (env.fate n) (env.cut_off n) (flush_from-Same k (n + 1) c d h))
    where
      idle : Result Progress × Db
      idle = (ok (record { applied = []; refunded = 0 }), d)

      go :
          (t : Fate) (cut : Bool)
          → Same c d (flush_from k (n + 1) c d)
          → Same c d (
              after_attempt (told t d idle) c (
                if cut
                then record { committed = false; counters = c; db = (told t d idle).1 }
                else flush_from k (n + 1) c (told t d idle).1))
      go answered cut h = (refl, refl)
      go connection_failed true h = (refl, refl)
      go connection_failed false h = h
      go answer_lost true h = (refl, refl)
      go answer_lost false h = h

  -- After an attempt that left the tables as they were.
  next-Once :
      (again : Db → Flushed) (cut : Bool) (c : Counters) (d d' : Db)
      → d' ≡ d
      → Once c d (again d)
      → Once c d (if cut then dropped_with c d' else again d')
  unfolding dropped_with
  next-Once again cut c d d' e h =
      subst (λ (z : Db). Once c d (if cut then dropped_with c z else again z)) (sym e)
        (choose (Once c d) cut (dropped_with c d) (again d)
          (λ _. inl (record { dropped = refl; same_counters = refl; same_tables = refl })) (λ _. h))

  result-Once :
      (k n : ℕ) (c : Counters) (d : Db) (t : Fate) (r : Result Progress) (cut : Bool)
      → env.fate n ≡ t
      → (commit_at n d).0 ≡ r
      → Once c d (flush_from k (n + 1) c d)
      → Once c d (
          after_attempt (told t d (r, (commit_at n d).1)) c (
            if cut
            then dropped_with c (told t d (r, (commit_at n d).1)).1
            else flush_from k (n + 1) c (told t d (r, (commit_at n d).1)).1))
  unfolding Same dropped_with
  result-Once k n c d answered (ok p) cut f h ih = inr (record {
    number = n;
    progress = p;
    result = h;
    tables = refl;
    counted = inl (refl, total-count_all p.applied c);
  })
  result-Once k n c d answered (err e) cut f h ih =
      next-Once (flush_from k (n + 1) c) cut c d (commit_at n d).1 (rolled_back n d e h) ih
  result-Once k n c d connection_failed r cut f h ih =
      next-Once (flush_from k (n + 1) c) cut c d d refl ih
  result-Once k n c d answer_lost (err e) cut f h ih =
      next-Once (flush_from k (n + 1) c) cut c d (commit_at n d).1 (rolled_back n d e h) ih
  result-Once k n c d answer_lost (ok p) true f h ih =
      inr (record { number = n; progress = p; result = h; tables = refl; counted = inr (f, refl) })
  result-Once k n c d answer_lost (ok p) false f h ih =
      let same = flush_from-Same k (n + 1) c (commit_at n d).1 (committed-Disowned n d p h) in
      inr (record {
        number = n;
        progress = p;
        result = h;
        tables = same.1;
        counted = inr (f, same.0);
      })

  flush_from-Once : (k n : ℕ) (c : Counters) (d : Db) → Once c d (flush_from k n c d)
  unfolding flush_from attempt dropped_with
  flush_from-Once zero n c d =
      inl (record { dropped = refl; same_counters = refl; same_tables = refl })
  flush_from-Once (suc k) n c d =
      result-Once k n c d (env.fate n) (commit_at n d).0 (env.cut_off n) refl refl
        (flush_from-Once k (n + 1) c d)

  -- A batch of outcomes is committed once or not at all, whether connections fail before a commit, answers
  -- of the server are lost after it, or sleeps are cut off: either it is dropped and the tables and counters
  -- stay as they were, or the tables are those of one successful commit, also after further attempts. Then
  -- the counters rise by the number of outcomes that it applied, or, if its answer was lost, stay.
  pub flush-Once : (c : Counters) (d : Db) → Once c d (flush c d)
  unfolding flush
  flush-Once c d = flush_from-Once 3 1 c d
