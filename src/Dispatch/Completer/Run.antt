-- ===== src/Dispatch/Completer/Run.antt =====
-- internal/dispatch/completer.go: the goroutine that collects outcomes into batches.
use sms_gateway.Common.{ℕ, sym, ◌∙◌, append-nil, ◌<◌, ◌≡◌, List, [], ◌++◌, length, All}
use sms_gateway.Batching.{
  Event, values, concat, batches, drain_batches, concat-batches, concat-drain_batches, pending,
  length-pending, concat-batches_dropped, Sized, batches-Sized, drain_batches-Sized,
}
use sms_gateway.Dispatch.Job.{Outcome}

-- How the loop of `run` ends: by `quit`, with the outcomes that are then in the channel, or because the
-- context is done.
pub data End : Type 0 where
  quit : List Outcome → End
  context_done : End

-- What follows the end, from the batch that is being filled.
abbrev pub at_end : ℕ → End → List Outcome → List (List Outcome)
at_end size (quit queued) batch = drain_batches size batch queued
at_end size context_done batch = []

-- `run`: the batches that it flushes, from the outcomes and timer events that it receives until the end.
unfoldable pub run_batches : ℕ → List (Event Outcome) → End → List (List Outcome)
run_batches size es end = batches size (at_end size end) [] es

abbrev pub queued_at : End → List Outcome
queued_at (quit queued) = queued
queued_at context_done = []

-- What `run` received and does not flush.
unfoldable pub left_unflushed : ℕ → List (Event Outcome) → End → List Outcome
left_unflushed size es (quit queued) = []
left_unflushed size es context_done = pending size [] es

-- The goroutine flushes the outcomes that it receives, once and in their order, in batches that are not
-- empty and hold at most the configured number of outcomes, if that is above zero. After `quit` it has
-- flushed all of them, those that were still in the channel included. When the context is done instead, it
-- leaves out the last ones, which are fewer than that number and those received since the last flush.
pub run_batches_all :
    (size : ℕ) (es : List (Event Outcome)) (end : End)
    → 0 < size
    → (concat (run_batches size es end) ++ left_unflushed size es end ≡ values es ++ queued_at end)
      × All (Sized size) (run_batches size es end)
      × (length (left_unflushed size es end) < size)
unfolding run_batches left_unflushed
run_batches_all size es (quit queued) h = (
  append-nil _
      ∙ concat-batches size (λ b. drain_batches size b queued) queued [] es
          (λ b. concat-drain_batches size b queued),
  batches-Sized size (λ b. drain_batches size b queued) [] es
      (λ b f. drain_batches-Sized size b queued f) h,
  h,
)
run_batches_all size es context_done h = (
  concat-batches_dropped size [] es ∙ sym (append-nil (values es)),
  batches-Sized size (λ b. []) [] es (λ b f. tt) h,
  length-pending size [] es h,
)
