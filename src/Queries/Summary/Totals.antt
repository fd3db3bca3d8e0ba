-- ===== src/Queries/Summary/Totals.antt =====
-- internal/message/report.go: the summary of tables that satisfy the invariant.
use sms_gateway.Common.{
  ℕ, suc, ◌≡◌, refl, sym, ap, ◌∙◌, Bool, true, false, ◌&&◌, none, some, List, [], ◌∷◌, keep, length,
  arith, if◌then◌else◌, All, Bool-cases, inl, inr,
}
use sms_gateway.Common.Int.{ℤ, pos, ◌+ℤ◌, int_laws}
use sms_gateway.Message.{Message, MessageType, Status, is_refundable}
use sms_gateway.Store.Tables.{Transaction, QueueRow, refund, Db, same_kind, is_id}
use sms_gateway.Invariant.{Inv, Settled}
use sms_gateway.Invariant.Sums.{count_kind, amount_kind}
use sms_gateway.Paging.Sorted.{All-keep}
use sms_gateway.Queries.Messages.{same_status, type_is}
use sms_gateway.Queries.Summary.{
  total, flat, Joined, Group, Summary, refund_amounts, left_join, reported, joined_rows, group_of,
  groups, one_if, or_zero, TypeSummary, add_group, empty_summary, summarize,
}
use sms_gateway.Queries.Summary.Exact.{
  zero_add, add_zero, total_ext, of_group, of_row, total-groups, total-add_groups,
}

refund_amounts_lem :
    (i : ℕ) (ts : List Transaction)
    → (length (refund_amounts i ts) ≡ count_kind refund i ts)
      × (total (λ x. x) (refund_amounts i ts) ≡ amount_kind refund i ts)
unfolding refund_amounts count_kind amount_kind
refund_amounts_lem i [] = (refl, refl)
refund_amounts_lem i (t ∷ ts) =
    elim (Bool-cases (same_kind t.kind refund && is_id t.message_id i)) [
      | inl e ↦
          rw e (
            ap suc (refund_amounts_lem i ts).0,
            ap (λ r. t.amount +ℤ r) (refund_amounts_lem i ts).1,
          )
      | inr e ↦ rw e (refund_amounts_lem i ts)
    ]

-- The row of a message in the join: what was refunded is its cost.
abbrev row_of : Message → Joined
row_of m = record {
  message = m;
  refund_amount = if is_refundable m.status then some (pos m.cost) else none;
}

left_join_once :
    (m : Message) (b : Bool) (c : ℕ) (amounts : List ℤ)
    → length amounts ≡ (if b then 1 else 0)
    → total (λ x. x) amounts ≡ (if b then pos c else pos 0)
    → left_join m amounts
      ≡ record { message = m; refund_amount = if b then some (pos c) else none } ∷ []
left_join_once m true c [] h k = absurd (omega (arith, h))
left_join_once m true c (x ∷ []) h k =
    ap (λ y. record { message = m; refund_amount = some y } ∷ []) (sym (add_zero x) ∙ k)
left_join_once m true c (x ∷ y ∷ rest) h k = absurd (omega (arith, h))
left_join_once m false c [] h k = refl
left_join_once m false c (x ∷ rest) h k = absurd (omega (arith, h))

total-join :
    (f : Joined → ℤ) (now : ℕ) (ts : List Transaction) (queue : List QueueRow) (ms : List Message)
    → All (Settled ts queue now) ms
    → total f (flat (λ m. left_join m (refund_amounts m.id ts)) ms) ≡ total (λ m. f (row_of m)) ms
total-join f now ts queue [] h = refl
total-join f now ts queue (m ∷ ms) h =
    let l = refund_amounts_lem m.id ts in
    rw
      (left_join_once m (is_refundable m.status) m.cost (refund_amounts m.id ts)
        (l.0 ∙ h.0.refund_due) (l.1 ∙ h.0.refund_cost))
      (ap (λ r. f (row_of m) +ℤ r) (total-join f now ts queue ms h.1))

total-one_if :
    (p : Message → Bool) (ms : List Message)
    → total (λ m. if p m then pos 1 else pos 0) ms ≡ pos (length (keep p ms))
total-one_if p [] = refl
total-one_if p (m ∷ ms) = elim (Bool-cases (p m)) [
  | inl e ↦ rw (e, total-one_if p ms) (omega int_laws)
  | inr e ↦ rw (e, total-one_if p ms) (zero_add _)
]

module _ (customer since until now : ℕ) (d : Db) (v : Inv now d) where
  listed : List Message
  listed = keep (reported customer since until) d.messages

  -- A number to which each group adds what it counts, if it is one of some groups.
  number_total :
      (number : Summary → ℤ) (c : MessageType → Status → Bool) (v : Group → ℤ) (u : Joined → ℤ)
      → ((t : MessageType) (s : Status) (rows : List Joined) → v (group_of t s rows) ≡ total u rows)
      → number (empty_summary since until) ≡ pos 0
      → ((sum : Summary) (g : Group) → number (add_group sum g) ≡ number sum +ℤ of_group c v g)
      → number (summarize customer since until d) ≡ total (λ m. of_row c u (row_of m)) listed
  unfolding summarize joined_rows listed
  number_total number c read u reads z step =
      total-add_groups number (of_group c read) step (empty_summary since until) _
      ∙ ap (λ n. n +ℤ total (of_group c read) (groups (joined_rows customer since until d))) z
      ∙ zero_add _
      ∙ total-groups c read u reads (joined_rows customer since until d)
      ∙ total-join (of_row c u) now d.transactions d.queue _
          (All-keep (λ m. m.id) _ (reported customer since until) d.messages v.settled)

-- The summary `sum` adds up the messages `ms`.
pub record AddsUp (sum : Summary) (ms : List Message) : Type 0 where
  pub messages_all : sum.messages ≡ pos (length ms)
  pub segments_all : sum.segments ≡ total (λ m. pos m.segments) ms
  pub spent_all : sum.credits_spent ≡ total (λ m. pos m.cost) ms
  pub refunded_all :
      sum.credits_refunded ≡ total (λ m. if is_refundable m.status then pos m.cost else pos 0) ms
  pub status_all :
      (s : Status) → sum.by_status s ≡ pos (length (keep (λ m. same_status s m.status) ms))
  pub type_all :
      (t : MessageType)
      → ((sum.by_type t).messages ≡ pos (length (keep (λ m. type_is t m.message_type) ms)))
        × ((sum.by_type t).credits
            ≡ total (λ m. if type_is t m.message_type then pos m.cost else pos 0) ms)
        × ((sum.by_type t).sla_breached
            ≡ total (λ m. if type_is t m.message_type then one_if m.sla_breached else pos 0) ms)

step_if : (b : Bool) (x y : ℤ) → (if b then x +ℤ y else x) ≡ x +ℤ (if b then y else pos 0)
step_if true x y = refl
step_if false x y = sym (add_zero x)

or_zero_if :
    (b : Bool) (c : ℕ) → or_zero (if b then some (pos c) else none) ≡ (if b then pos c else pos 0)
or_zero_if true c = refl
or_zero_if false c = refl

keep_all : {A : Type 0} (xs : List A) → keep (λ x. true) xs ≡ xs
keep_all [] = refl
keep_all (x ∷ xs) = ap (λ r. x ∷ r) (keep_all xs)

type_step :
    (f : TypeSummary → ℤ) (s : TypeSummary) (b : Bool) (y : ℤ) (s' : TypeSummary)
    → f s' ≡ f s +ℤ y
    → f (if b then s' else s) ≡ f s +ℤ (if b then y else pos 0)
type_step f s true y s' h = h
type_step f s false y s' h = sym (add_zero (f s))

-- At tables that satisfy the invariant, the summary of a customer and a range of times counts every message
-- of that customer and range once: it has the number of all of them, and of those of each status and of each
-- type; the segments and the costs of all; the costs and the missed SLAs of each type; and as refunded
-- credits the costs of the failed and the expired ones.
pub summarize_exact :
    (customer since until now : ℕ) (d : Db)
    → Inv now d
    → AddsUp (summarize customer since until d) (keep (reported customer since until) d.messages)
unfolding listed empty_summary
summarize_exact customer since until now d v =
    let number = number_total customer since until now d v in
    let ms = keep (reported customer since until) d.messages in
    record {
      messages_all =
          number (λ s. s.messages) (λ t s. true) (λ g. g.count) (λ r. pos 1) (λ t s rows. refl) refl
            (λ s g. refl)
          ∙ total-one_if (λ m. true) ms
          ∙ ap (λ l. pos (length l)) (keep_all ms);
      segments_all =
          number (λ s. s.segments) (λ t s. true) (λ g. g.segments) (λ r. pos r.message.segments)
            (λ t s rows. refl) refl (λ s g. refl);
      spent_all =
          number (λ s. s.credits_spent) (λ t s. true) (λ g. g.credits) (λ r. pos r.message.cost)
            (λ t s rows. refl) refl (λ s g. refl);
      refunded_all =
          number (λ s. s.credits_refunded) (λ t s. true) (λ g. g.refunded)
            (λ r. or_zero r.refund_amount) (λ t s rows. refl) refl (λ s g. refl)
          ∙ total_ext _ _ (λ m. or_zero_if (is_refundable m.status) m.cost) ms;
      status_all = λ s.
          number (λ x. x.by_status s) (λ t s'. same_status s s') (λ g. g.count) (λ r. pos 1)
            (λ t s' rows. refl) refl
            (λ x g. step_if (same_status s g.group_status) (x.by_status s) g.count)
          ∙ total-one_if (λ m. same_status s m.status) ms;
      type_all = λ t. (
        number (λ x. (x.by_type t).messages) (λ t' s. type_is t t') (λ g. g.count) (λ r. pos 1)
              (λ t' s rows. refl) refl
              (λ x g.
                type_step (λ y. y.messages) (x.by_type t) (type_is t g.group_type) g.count _ refl)
            ∙ total-one_if (λ m. type_is t m.message_type) ms,
        number (λ x. (x.by_type t).credits) (λ t' s. type_is t t') (λ g. g.credits)
            (λ r. pos r.message.cost) (λ t' s rows. refl) refl
            (λ x g.
              type_step (λ y. y.credits) (x.by_type t) (type_is t g.group_type) g.credits _ refl),
        number (λ x. (x.by_type t).sla_breached) (λ t' s. type_is t t') (λ g. g.breached)
            (λ r. one_if r.message.sla_breached) (λ t' s rows. refl) refl
            (λ x g.
              type_step (λ y. y.sla_breached) (x.by_type t) (type_is t g.group_type) g.breached _
                refl),
      );
    }
