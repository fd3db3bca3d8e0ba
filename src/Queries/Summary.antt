-- ===== src/Queries/Summary.antt =====
-- internal/message/report.go: the summary of a customer's messages. A map that has every status, or every
-- type, is a function. The rows of the query come in the order of `keys`; no field depends on it.
pub mod Exact
pub mod Totals
use sms_gateway.Common.{
  ℕ, Bool, ◌&&◌, Option, none, some, List, [], ◌∷◌, ◌++◌, map, keep, ◌==◌, if◌then◌else◌, leb, ltb,
}
use sms_gateway.Common.Int.{ℤ, pos, ◌+ℤ◌}
use sms_gateway.Message.{
  Message, MessageType, normal, express, Status, accepted, sent, delivered, undelivered, failed,
  expired,
}
use sms_gateway.Store.Tables.{Transaction, refund, Db, same_kind, is_id}
use sms_gateway.Store.Ids.{lower_bound}
use sms_gateway.Queries.Messages.{same_status, type_is}

pub record TypeSummary : Type 0 where
  pub messages : ℤ
  pub credits : ℤ
  pub sla_breached : ℤ

pub record Summary : Type 0 where
  pub since : ℕ
  pub until : ℕ
  pub messages : ℤ
  pub segments : ℤ
  pub credits_spent : ℤ
  pub credits_refunded : ℤ
  pub by_status : Status → ℤ
  pub by_type : MessageType → TypeSummary

-- sum(f)
abbrev pub total {ℓ} : {A : Type ℓ} → (A → ℤ) → List A → ℤ
total f [] = pos 0
total f (x ∷ xs) = f x +ℤ total f xs

-- A row of the join: the message, and the amount of a refund or NULL.
pub record Joined : Type 0 where
  pub message : Message
  pub refund_amount : Option ℤ

unfoldable pub refund_amounts : ℕ → List Transaction → List ℤ
refund_amounts i [] = []
refund_amounts i (t ∷ ts) =
    let rest = refund_amounts i ts in
    if same_kind t.kind refund && is_id t.message_id i then t.amount ∷ rest else rest

abbrev pub left_join : Message → List ℤ → List Joined
left_join m [] = record { message = m; refund_amount = none } ∷ []
left_join m (a ∷ rest) = map (λ x. record { message = m; refund_amount = some x }) (a ∷ rest)

abbrev pub flat {ℓ κ} : {A : Type ℓ} {B : Type κ} → (A → List B) → List A → List B
flat f [] = []
flat f (x ∷ xs) = f x ++ flat f xs

-- The messages of the customer that were accepted in the range.
unfoldable pub reported : ℕ → ℕ → ℕ → Message → Bool
reported customer since until m =
    m.customer_id == customer && (leb (lower_bound since) m.id && ltb m.id (lower_bound until))

unfoldable pub joined_rows : ℕ → ℕ → ℕ → Db → List Joined
joined_rows customer since until d =
    flat (λ m. left_join m (refund_amounts m.id d.transactions))
      (keep (reported customer since until) d.messages)

-- A row of the result.
pub record Group : Type 0 where
  pub group_type : MessageType
  pub group_status : Status
  pub count : ℤ
  pub segments : ℤ
  pub credits : ℤ
  pub breached : ℤ
  pub refunded : ℤ

abbrev pub or_zero : Option ℤ → ℤ
or_zero none = pos 0
or_zero (some x) = x

abbrev pub one_if : Bool → ℤ
one_if b = if b then pos 1 else pos 0

abbrev pub group_of : MessageType → Status → List Joined → Group
group_of t s rows = record {
  group_type = t;
  group_status = s;
  count = total (λ r. pos 1) rows;
  segments = total (λ r. pos r.message.segments) rows;
  credits = total (λ r. pos r.message.cost) rows;
  breached = total (λ r. one_if r.message.sla_breached) rows;
  refunded = total (λ r. or_zero r.refund_amount) rows;
}

-- GROUP BY makes no group without rows.
abbrev pub grouped : MessageType → Status → List Joined → List Group
grouped t s [] = []
grouped t s (r ∷ rs) = group_of t s (r ∷ rs) ∷ []

-- `Statuses`, for each type
unfoldable pub keys : List (MessageType × Status)
keys =
    (normal, accepted)
    ∷ (normal, sent)
    ∷ (normal, delivered)
    ∷ (normal, undelivered)
    ∷ (normal, failed)
    ∷ (normal, expired)
    ∷ (express, accepted)
    ∷ (express, sent)
    ∷ (express, delivered)
    ∷ (express, undelivered)
    ∷ (express, failed)
    ∷ (express, expired)
    ∷ []

abbrev pub in_group : MessageType × Status → Joined → Bool
in_group k r = type_is k.0 r.message.message_type && same_status k.1 r.message.status

unfoldable pub groups : List Joined → List Group
unfolding keys
groups rows = flat (λ k. grouped k.0 k.1 (keep (in_group k) rows)) keys

-- The function that `pgx.ForEachRow` calls.
abbrev pub add_group : Summary → Group → Summary
add_group sum g = record sum {
  messages = sum.messages +ℤ g.count;
  segments = sum.segments +ℤ g.segments;
  credits_spent = sum.credits_spent +ℤ g.credits;
  credits_refunded = sum.credits_refunded +ℤ g.refunded;
  by_status =
      λ s. if same_status s g.group_status then sum.by_status s +ℤ g.count else sum.by_status s;
  by_type = λ t.
      if type_is t g.group_type
      then record {
        messages = (sum.by_type t).messages +ℤ g.count;
        credits = (sum.by_type t).credits +ℤ g.credits;
        sla_breached = (sum.by_type t).sla_breached +ℤ g.breached;
      }
      else sum.by_type t;
}

abbrev pub add_groups : Summary → List Group → Summary
add_groups sum [] = sum
add_groups sum (g ∷ gs) = add_groups (add_group sum g) gs

unfoldable pub empty_summary : ℕ → ℕ → Summary
empty_summary since until = record {
  since = since;
  until = until;
  messages = pos 0;
  segments = pos 0;
  credits_spent = pos 0;
  credits_refunded = pos 0;
  by_status = λ s. pos 0;
  by_type = λ t. record { messages = pos 0; credits = pos 0; sla_breached = pos 0 };
}

-- `Summarize`
unfoldable pub summarize : ℕ → ℕ → ℕ → Db → Summary
unfolding empty_summary groups joined_rows
summarize customer since until d =
    add_groups (empty_summary since until) (groups (joined_rows customer since until d))
