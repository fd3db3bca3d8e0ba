-- ===== src/Accept/Replay.antt =====
-- internal/message/accept.go: resolveExisting, which decides between replay and conflict after an
-- insert found client_refs that exist. `ms` are the stored messages, of which no two of a customer
-- share a client_ref.
mod Examples
use sms_gateway.Common.{
  append-nil, append_assoc, ap, ◌∙◌, ℕ, ◌+◌, ◌≡◌, refl, Bool, true, false, ◌&&◌, ◌||◌, not, Option,
  none, some, List, [], ◌∷◌, ◌++◌, any, keep, ◌==◌, if◌then◌else◌, arith, Bool-cases, Option-cases,
  inl, inr,
}
use sms_gateway.Common.Text.{Text, text_eq}
use sms_gateway.Message.{Message, MessageType, is_express}
use sms_gateway.Store.Tables.{is_text, is_null, null_text}
use sms_gateway.Accept.{Item, Accepted}

-- Why an item conflicts: its client_ref belongs to another request, or to an earlier request that the
-- batch repeats in part only.
pub data Conflict : Type 0 where
  differs repeats_partly : ℕ → Conflict

-- `found` is false; a replay; or a *ConflictError.
pub data Resolution : Type 0 where
  not_found : Resolution
  replayed : Accepted → Resolution
  conflicts_at : List Conflict → Resolution

abbrev pub same_type : MessageType → MessageType → Bool
same_type t u = if is_express t then is_express u else not (is_express u)

unfoldable pub same_request : Message → Item → Bool
same_request m x =
    text_eq m.recipient x.recipient
    && (text_eq m.body x.text && same_type m.message_type x.message_type)

-- `refs` of the query: the item has a client_ref and the message carries it.
abbrev pub carries : Message → Item → Bool
carries m x = not (is_null (null_text x.ref)) && is_text m.client_ref x.ref

unfoldable pub existing_of : ℕ → List Item → List Message → List Message
existing_of customer items = keep (λ m. m.customer_id == customer && any (carries m) items)

-- `byRef[it.ref]`, for an item that has a client_ref
unfoldable pub stored_for : List Message → Item → Option Message
stored_for [] x = none
stored_for (m ∷ ms) x = if carries m x then some m else stored_for ms x

-- `replay` (none once Messages is nil) and `conflicts`
pub record ReplayProgress : Type 0 where
  pub replay : Option Accepted
  pub conflicts : List Conflict

abbrev pub add_replay : Message → Option Accepted → Option Accepted
add_replay m none = none
add_replay m (some r) =
    some (record { messages = r.messages ++ m ∷ []; total_cost = r.total_cost + m.cost })

-- The body of the loop, with the stored message of the item.
unfoldable pub resolve_item : ℕ → Item → Option Message → ReplayProgress → ReplayProgress
resolve_item i x none p = record p { replay = none }
resolve_item i x (some m) p =
    if same_request m x
    then record { replay = add_replay m p.replay; conflicts = p.conflicts ++ repeats_partly i ∷ [] }
    else record { replay = none; conflicts = p.conflicts ++ differs i ∷ [] }

unfoldable pub resolve_items : List Message → ℕ → List Item → ReplayProgress → ReplayProgress
resolve_items existing i [] p = p
resolve_items existing i (x ∷ xs) p =
    resolve_items existing (i + 1) xs (resolve_item i x (stored_for existing x) p)

abbrev pub decide : ReplayProgress → Resolution
decide p = elim p.replay [ none ↦ conflicts_at p.conflicts | some r ↦ replayed r ]

abbrev pub resolve_with : List Message → List Item → Resolution
resolve_with [] items = not_found
resolve_with (m ∷ ms) items = decide (
    resolve_items (m ∷ ms) 0 items
      (record { replay = some (record { messages = []; total_cost = 0 }); conflicts = [] }))

-- `resolveExisting`
unfoldable pub resolve_existing : ℕ → List Item → List Message → Resolution
resolve_existing customer items ms = resolve_with (existing_of customer items ms) items

-- The stored message that an item repeats exactly.
abbrev pub repeats : List Message → Item → Bool
repeats existing x = elim (stored_for existing x) [ none ↦ false | some m ↦ same_request m x ]

-- The stored messages of the items, in request order, and the sum of their costs.
unfoldable pub stored_all : List Message → List Item → List Message
stored_all existing [] = []
stored_all existing (x ∷ xs) =
    let rest = stored_all existing xs in
    elim (stored_for existing x) [ none ↦ rest | some m ↦ m ∷ rest ]

unfoldable pub sum_costs : List Message → ℕ
sum_costs [] = 0
sum_costs (m ∷ ms) = m.cost + sum_costs ms

abbrev pub replay_of : Resolution → Option Accepted
replay_of not_found = none
replay_of (replayed r) = some r
replay_of (conflicts_at cs) = none

replay_of-decide : (p : ReplayProgress) → replay_of (decide p) ≡ p.replay
replay_of-decide p = go p.replay p.conflicts
  where
    go :
        (o : Option Accepted) (cs : List Conflict)
        → replay_of (decide (record { replay = o; conflicts = cs })) ≡ o
    go none cs = refl
    go (some r) cs = refl

no_replay_item :
    (i : ℕ) (x : Item) (o : Option Message) (cs : List Conflict)
    → (resolve_item i x o (record { replay = none; conflicts = cs })).replay ≡ none
unfolding resolve_item
no_replay_item i x none cs = refl
no_replay_item i x (some m) cs = ground arith

no_replay :
    (existing : List Message) (i : ℕ) (xs : List Item) (cs : List Conflict)
    → (resolve_items existing i xs (record { replay = none; conflicts = cs })).replay ≡ none
unfolding resolve_items
no_replay existing i [] cs = refl
no_replay existing i (x ∷ xs) cs =
    let p = resolve_item i x (stored_for existing x) (record { replay = none; conflicts = cs }) in
    ap
      (λ o.
        (resolve_items existing (i + 1) xs (record { replay = o; conflicts = p.conflicts })).replay)
      (no_replay_item i x (stored_for existing x) cs)
    ∙ no_replay existing (i + 1) xs p.conflicts

-- What the items from some point on make of the replay so far.
abbrev Replays : List Message → List Item → List Message → ℕ → Option Accepted → Type 0
Replays existing xs msgs t r = r ≡ (
    if any (λ x. not (repeats existing x)) xs
    then none
    else some (record {
      messages = msgs ++ stored_all existing xs;
      total_cost = t + sum_costs (stored_all existing xs);
    }))

replay_item :
    (existing : List Message) (i : ℕ) (x : Item) (xs : List Item) (msgs : List Message) (t : ℕ)
    (cs : List Conflict) (o : Option Message)
    → ((msgs' : List Message) (t' : ℕ) (cs' : List Conflict)
        → Replays existing xs msgs' t'
            (resolve_items existing (i + 1) xs (record {
              replay = some (record { messages = msgs'; total_cost = t' });
              conflicts = cs';
            })).replay)
    → (resolve_items existing (i + 1) xs (
        resolve_item i x o (record {
          replay = some (record { messages = msgs; total_cost = t });
          conflicts = cs;
        }))).replay
      ≡ (if (if not (elim o [ none ↦ false | some m ↦ same_request m x ])
            then true
            else any (λ y. not (repeats existing y)) xs)
          then none
          else some (record {
            messages =
                msgs
                ++ elim o [ none ↦ stored_all existing xs | some m ↦ m ∷ stored_all existing xs ];
            total_cost =
                t
                + sum_costs (elim o [
                  | none ↦ stored_all existing xs
                  | some m ↦ m ∷ stored_all existing xs
                ]);
          }))
unfolding resolve_item sum_costs
replay_item existing i x xs msgs t cs none ih = no_replay existing (i + 1) xs cs
replay_item existing i x xs msgs t cs (some m) ih = elim (Bool-cases (same_request m x)) [
  | inr other ↦ rw other (no_replay existing (i + 1) xs _)
  | inl same ↦
      let more : t + m.cost + sum_costs (stored_all existing xs)
          ≡ t + (m.cost + sum_costs (stored_all existing xs)) =
        omega arith in
      rw same (
        ih (msgs ++ m ∷ []) (t + m.cost) _
        ∙ rw (more, append_assoc msgs (m ∷ []) (stored_all existing xs)) refl)
]

replay_items :
    (existing : List Message) (i : ℕ) (xs : List Item) (msgs : List Message) (t : ℕ)
    (cs : List Conflict)
    → Replays existing xs msgs t
        (resolve_items existing i xs (record {
          replay = some (record { messages = msgs; total_cost = t });
          conflicts = cs;
        })).replay
unfolding resolve_items stored_all sum_costs
replay_items existing i [] msgs t cs =
    let zero_more : t + 0 ≡ t = omega arith in rw (append-nil msgs, zero_more) refl
replay_items existing i (x ∷ xs) msgs t cs =
    replay_item existing i x xs msgs t cs (stored_for existing x)
      (λ msgs' t' cs'. replay_items existing (i + 1) xs msgs' t' cs')

abbrev pub is_conflict : Resolution → Bool
is_conflict not_found = false
is_conflict (replayed r) = false
is_conflict (conflicts_at cs) = true

is_conflict-decide : (p : ReplayProgress) → is_conflict (decide p) ≡ is_null p.replay
is_conflict-decide p = go p.replay p.conflicts
  where
    go :
        (o : Option Accepted) (cs : List Conflict)
        → is_conflict (decide (record { replay = o; conflicts = cs })) ≡ is_null o
    go none cs = refl
    go (some r) cs = refl

null_if : {A : Type 0} (b : Bool) (x : A) → is_null (if b then none else some x) ≡ b
null_if true x = refl
null_if false x = refl

-- If some stored message carries a client_ref of the submission, it is a replay exactly if every item
-- has a client_ref and repeats its stored message's recipient, text and type; the replay then has the
-- stored messages in request order and the sum of their costs. Otherwise it is a conflict.
pub resolve_existing-replay :
    (customer : ℕ) (items : List Item) (ms : List Message) (m : Message) (rest : List Message)
    → existing_of customer items ms ≡ m ∷ rest
    → (replay_of (resolve_existing customer items ms) ≡ (
        if any (λ x. not (repeats (m ∷ rest) x)) items
        then none
        else some (record {
          messages = stored_all (m ∷ rest) items;
          total_cost = sum_costs (stored_all (m ∷ rest) items);
        })))
      × (is_conflict (resolve_existing customer items ms)
          ≡ any (λ x. not (repeats (m ∷ rest) x)) items)
unfolding resolve_existing
resolve_existing-replay customer items ms m rest h =
    let total : 0 + sum_costs (stored_all (m ∷ rest) items)
        ≡ sum_costs (stored_all (m ∷ rest) items) =
      omega arith in
    let end = replay_items (m ∷ rest) 0 items [] 0 [] in
    (
      ap (λ ex. replay_of (resolve_with ex items)) h ∙ (replay_of-decide _ ∙ end) ∙ rw total refl,
      ap (λ ex. is_conflict (resolve_with ex items)) h
          ∙ (is_conflict-decide _ ∙ ap is_null end)
          ∙ null_if _ _,
    )
