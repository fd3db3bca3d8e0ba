-- ===== src/Queries/Messages.antt =====
-- Queries on messages: `Get` and `List` of a customer, `ListAll` and `Inspect` of operators.
use sms_gateway.Common.{
  ℕ, ◌-◌, Bool, true, false, ◌&&◌, Option, none, some, List, [], ◌∷◌, ◌++◌, map, keep, ◌==◌,
  if◌then◌else◌,
}
use sms_gateway.Common.Text.{Text, text_eq}
use sms_gateway.Message.{
  Message, MessageType, normal, express, Status, accepted, sent, delivered, undelivered, failed,
  expired,
}
use sms_gateway.Store.Tables.{Customer, QueueRow, Db, null_text}
use sms_gateway.Store.Ids.{null_id, null_lower_bound, not_below, below}
use sms_gateway.Paging.{page_of}
use sms_gateway.Queries.{Found, exactly_one, matches}

abbrev pub same_status : Status → Status → Bool
same_status accepted accepted = true
same_status sent sent = true
same_status delivered delivered = true
same_status undelivered undelivered = true
same_status failed failed = true
same_status expired expired = true
same_status _ _ = false

abbrev pub type_is : MessageType → MessageType → Bool
type_is normal normal = true
type_is express express = true
type_is _ _ = false

-- The zero values of the Go fields are `none`, the empty text and 0.
pub record Filter : Type 0 where
  pub status : Option Status
  pub message_type : Option MessageType
  pub recipient : Text
  pub since : Option ℕ
  pub until : Option ℕ
  pub after : ℕ
  pub limit : ℕ

-- `Service.Get`
unfoldable pub get : ℕ → ℕ → Db → Found Message
get customer id d = exactly_one (keep (λ m. m.id == id && m.customer_id == customer) d.messages)

-- The conditions of `List` but for the page.
unfoldable pub selects : ℕ → Filter → Message → Bool
selects customer f m =
    m.customer_id == customer
    && (matches same_status f.status m.status
        && (matches type_is f.message_type m.message_type
            && (matches text_eq (null_text f.recipient) m.recipient
                && (not_below (null_lower_bound f.since) m.id
                    && below (null_lower_bound f.until) m.id))))

-- `Service.List`
unfoldable pub list : ℕ → Filter → Db → List Message × Bool
list customer f d = page_of (λ m. m.id) (selects customer f) f.after f.limit d.messages

pub record QueueState : Type 0 where
  pub lane : Text
  pub next_attempt_at : ℕ
  pub lease_owner : Option Text

pub record Inspected : Type 0 where
  pub message : Message
  pub customer_name : Text
  pub queue : Option QueueState

pub record AdminFilter : Type 0 where
  pub customer_id : ℕ
  pub filter : Filter

-- The start of the range of `ListAll`: without a customer, the last 24 hours.
abbrev default_since : Option ℕ → ℕ → Option ℕ
default_since none now = some (now - 86400000000000)
default_since (some t) now = some t

unfoldable pub since_of : AdminFilter → ℕ → Option ℕ
since_of f now = if f.customer_id == 0 then default_since f.filter.since now else f.filter.since

unfoldable pub selects_all : AdminFilter → ℕ → Inspected → Bool
selects_all f now x =
    matches (λ a b. b == a) (null_id f.customer_id) x.message.customer_id
    && (matches same_status f.filter.status x.message.status
        && (matches type_is f.filter.message_type x.message.message_type
            && (not_below (null_lower_bound (since_of f now)) x.message.id
                && below (null_lower_bound f.filter.until) x.message.id)))

-- JOIN customers c ON c.id = m.customer_id, for one message.
unfoldable pub with_names : Message → List Customer → List Inspected
with_names m [] = []
with_names m (c ∷ cs) =
    let rest = with_names m cs in
    if c.id == m.customer_id
    then record { message = m; customer_name = c.name; queue = none } ∷ rest
    else rest

unfoldable pub joined : List Message → List Customer → List Inspected
joined [] cs = []
joined (m ∷ ms) cs = with_names m cs ++ joined ms cs

-- `Service.ListAll`
unfoldable pub list_all : AdminFilter → ℕ → Db → List Inspected × Bool
list_all f now d =
    page_of (λ x. x.message.id) (selects_all f now) f.filter.after f.filter.limit
      (joined d.messages d.customers)

abbrev queue_state : QueueRow → QueueState
queue_state q = record {
  lane = q.lane;
  next_attempt_at = q.next_attempt_at;
  lease_owner = q.lease_owner;
}

-- LEFT JOIN queue q ON q.message_id = m.id
unfoldable pub with_queue : Inspected → List QueueRow → List Inspected
with_queue x [] = x ∷ []
with_queue x (q ∷ qs) = map (λ r. record x { queue = some (queue_state r) }) (q ∷ qs)

unfoldable pub queue_of : Message → List QueueRow → List QueueRow
queue_of m = keep (λ q. q.message_id == m.id)

unfoldable pub inspected_rows : List Inspected → List QueueRow → List Inspected
inspected_rows [] qs = []
inspected_rows (x ∷ xs) qs = with_queue x (queue_of x.message qs) ++ inspected_rows xs qs

-- `Service.Inspect`
unfoldable pub inspect : ℕ → Db → Found Inspected
inspect id d =
    exactly_one (inspected_rows (joined (keep (λ m. m.id == id) d.messages) d.customers) d.queue)
