-- ===== src/Dlr/Batcher.antt =====
-- internal/dlr/batcher.go: reports are collected into batches, and each is answered once its batch has
-- been committed. A pending report is known by a ticket, which stands for its result channel. What `Submit`
-- does when its context ends before the answer is left out.
use sms_gateway.Common.{
  ℕ, suc, ◌+◌, ◌≡◌, refl, sym, ap, ◌∙◌, Bool, Option, List, [], ◌∷◌, ◌++◌, map, length,
  if◌then◌else◌, arith, append-nil,
}
use sms_gateway.Message.{Status}
use sms_gateway.Store.Tables.{Db}
use sms_gateway.Batching.{
  choose, Event, values, concat, flushed, batches, concat-batches, concat-flushed,
}
use sms_gateway.Dlr.{Report, ReportOutcome, apply, classify}

pub record Pending : Type 0 where
  pub ticket : ℕ
  pub report : Report

pub data Answer : Type 0 where
  with_outcome : ReportOutcome → Answer
  -- the error of `Apply`
  failed : Answer

-- p.result <- result{outcome: outcomes[i]}
unfoldable pub answer_all : List Pending → List ReportOutcome → List (ℕ × Answer)
answer_all [] os = []
answer_all (p ∷ ps) [] = []
answer_all (p ∷ ps) (o ∷ os) = (p.ticket, with_outcome o) ∷ answer_all ps os

abbrev pub reports_of : List Pending → List Report
reports_of = map (λ p. p.report)

-- `commit`, at a time, and whether the database fails.
unfoldable pub commit_batch : ℕ → Bool → List Pending → Db → List (ℕ × Answer) × Db
unfolding answer_all
commit_batch now breaks batch d =
    let (os, d') = apply now (reports_of batch) d in
    if breaks then (map (λ p. (p.ticket, failed)) batch, d) else (answer_all batch os, d')

-- The batches of `Run`: after the stop, what is in the channel joins the last one.
unfoldable pub run_batches : ℕ → List (Event Pending) → List Pending → List (List Pending)
run_batches size es queued = batches size (λ b. flushed (b ++ queued) []) [] es

-- The answers of all commits; the n-th begins at `at n`.
unfoldable pub commit_all :
    (ℕ → ℕ) → (ℕ → Bool) → ℕ → List (List Pending) → Db → List (ℕ × Answer) × Db
unfolding commit_batch
commit_all at breaks n [] d = ([], d)
commit_all at breaks n (b ∷ bs) d =
    let (answers, d') = commit_batch (at n) (breaks n) b d in
    let (rest, d'') = commit_all at breaks (n + 1) bs d' in (answers ++ rest, d'')

pub tickets : List Pending → List ℕ
tickets = map (λ p. p.ticket)

length-classify :
    (changed : List ℕ) (current : ℕ → Option Status) (seen : List ℕ) (rs : List Report)
    → length (classify changed current seen rs) ≡ length rs
unfolding classify
length-classify changed current seen [] = refl
length-classify changed current seen (r ∷ rs) =
    ap (λ n. suc n) (length-classify changed current (r.message_id ∷ seen) rs)

length-map : {A B : Type 0} (f : A → B) (xs : List A) → length (map f xs) ≡ length xs
length-map f [] = refl
length-map f (x ∷ xs) = ap (λ n. suc n) (length-map f xs)

map-append : {A B : Type 0} (f : A → B) (xs ys : List A) → map f (xs ++ ys) ≡ map f xs ++ map f ys
map-append f [] ys = refl
map-append f (x ∷ xs) ys = ap (λ r. f x ∷ r) (map-append f xs ys)

pub to : List (ℕ × Answer) → List ℕ
to = map (λ a. a.0)

answer_all_to :
    (ps : List Pending) (os : List ReportOutcome)
    → length os ≡ length ps
    → to (answer_all ps os) ≡ tickets ps
unfolding answer_all to tickets
answer_all_to [] os h = refl
answer_all_to (p ∷ ps) [] h = ground (arith, h)
answer_all_to (p ∷ ps) (o ∷ os) h = ap (λ r. p.ticket ∷ r) (answer_all_to ps os (omega (arith, h)))

failed_to : (ps : List Pending) → to (map (λ p. (p.ticket, failed)) ps) ≡ tickets ps
unfolding to tickets
failed_to [] = refl
failed_to (p ∷ ps) = ap (λ r. p.ticket ∷ r) (failed_to ps)

length-apply : (now : ℕ) (rs : List Report) (d : Db) → length (apply now rs d).0 ≡ length rs
unfolding apply
length-apply now rs d = length-classify _ _ [] rs

commit_batch_to :
    (now : ℕ) (breaks : Bool) (batch : List Pending) (d : Db)
    → to (commit_batch now breaks batch d).0 ≡ tickets batch
unfolding commit_batch
commit_batch_to now breaks batch d =
    choose (λ (r : List (ℕ × Answer) × Db). to r.0 ≡ tickets batch) breaks
      (map (λ p. (p.ticket, failed)) batch, d)
      (answer_all batch (apply now (reports_of batch) d).0, (apply now (reports_of batch) d).1)
      (λ _. failed_to batch)
      (λ _.
        answer_all_to batch (apply now (reports_of batch) d).0
          (length-apply now (reports_of batch) d ∙ length-map (λ p. p.report) batch))

commit_all_to :
    (at : ℕ → ℕ) (breaks : ℕ → Bool) (n : ℕ) (bs : List (List Pending)) (d : Db)
    → to (commit_all at breaks n bs d).0 ≡ tickets (concat bs)
unfolding commit_all to tickets
commit_all_to at breaks n [] d = refl
commit_all_to at breaks n (b ∷ bs) d =
    let r = commit_batch (at n) (breaks n) b d in
    map-append (λ (a : ℕ × Answer). a.0) r.0 (commit_all at breaks (n + 1) bs r.1).0
    ∙ ap (λ l. l ++ to (commit_all at breaks (n + 1) bs r.1).0)
        (commit_batch_to (at n) (breaks n) b d)
    ∙ ap (λ l. tickets b ++ l) (commit_all_to at breaks (n + 1) bs r.1)
    ∙ sym (map-append (λ (p : Pending). p.ticket) b (concat bs))

-- Every report that reaches the channel is answered exactly once, and in the order of arrival: those that
-- are received before the stop, with whatever timer events between them, and those that are still in the
-- channel then; also where commits fail.
pub commit_all_answers :
    (size : ℕ) (es : List (Event Pending)) (queued : List Pending) (at : ℕ → ℕ) (breaks : ℕ → Bool)
    (d : Db)
    → to (commit_all at breaks 0 (run_batches size es queued) d).0 ≡ tickets (values es ++ queued)
unfolding run_batches
commit_all_answers size es queued at breaks d =
    commit_all_to at breaks 0 (batches size (λ b. flushed (b ++ queued) []) [] es) d
    ∙ ap tickets (
        concat-batches size (λ b. flushed (b ++ queued) []) queued [] es
          (λ b. concat-flushed size (b ++ queued) [] ∙ append-nil (b ++ queued)))
