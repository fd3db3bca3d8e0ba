-- ===== src/Invariant/Update.antt =====
-- The invariant under an update of messages and queue rows, with or without refunds.
use sms_gateway.Common.{
  ℕ, ◌≤◌, ◌≡◌, refl, sym, ap, ◌∙◌, ◌≢◌, Bool, true, false, ◌||◌, Option, none, some, List, [], ◌∷◌,
  map, if◌then◌else◌, arith, All, All-map, All-imp, All-zip,
}
use sms_gateway.Common.Int.{pos, ◌+ℤ◌, int_laws}
use sms_gateway.Message.{Message, is_accepted, is_refundable}
use sms_gateway.Store.Tables.{debit, refund, Transaction, QueueRow, Db, has_message, queued}
use sms_gateway.Billing.{Refund, refunds_where}
use sms_gateway.Billing.Refunds.{first_refund, refunded, moved}
use sms_gateway.Billing.Apply.{Refunded}
use sms_gateway.Invariant.Sums.{count_kind, amount_kind}
use sms_gateway.Invariant.{Settled, Distinct, Inv, times_violated}

pub has_message-map :
    (i : ℕ) (f : Message → Message) (ms : List Message)
    → ((m : Message) → (f m).id ≡ m.id)
    → has_message i (map f ms) ≡ has_message i ms
unfolding has_message
has_message-map i f [] h = refl
has_message-map i f (m ∷ ms) h = rw (h m, has_message-map i f ms h)

Distinct-map :
    (f : Message → Message) (ms : List Message)
    → ((m : Message) → (f m).id ≡ m.id)
    → Distinct ms
    → Distinct (map f ms)
Distinct-map f [] h u = tt
Distinct-map f (m ∷ ms) h u =
    (rw (h m) (has_message-map m.id f ms h ∙ u.0), Distinct-map f ms h u.1)

-- What an update may do to a message: `p` says whether it is refunded by it.
pub record Change (queue : List QueueRow) (p : Bool) (m m' : Message) : Type 0 where
  pub same_id : m'.id ≡ m.id
  pub same_cost : m'.cost ≡ m.cost
  pub same_accepted : m'.accepted_at ≡ m.accepted_at
  pub refundable : is_refundable m'.status ≡ (is_refundable m.status || p)
  pub first_time : p ≡ true → is_refundable m.status ≡ false
  pub still_waiting : is_accepted m'.status ≡ true → queued m.id queue ≡ true
  pub still_unsent : is_accepted m'.status ≡ true → m'.sent_at ≡ none
  pub in_time : times_violated m' ≡ false

-- A message that is left alone, while its queue row stays if it waits.
pub Change-same :
    (txs : List Transaction) (q q' : List QueueRow) (now : ℕ) (m : Message)
    → Settled txs q now m
    → (is_accepted m.status ≡ true → queued m.id q' ≡ true)
    → Change q' false m m
Change-same txs q q' now m s h = record {
  same_id = refl;
  same_cost = refl;
  same_accepted = refl;
  refundable = ground arith;
  first_time = λ e. cc;
  still_waiting = h;
  still_unsent = s.unsent;
  in_time = s.timely;
}

refunded_parts :
    (i : ℕ) (txs txs' : List Transaction) (o : Option ℕ)
    → refunded i txs' ≡ moved (refunded i txs) o
    → (count_kind refund i txs' ≡ (moved (refunded i txs) o).0)
      × (amount_kind refund i txs' ≡ (moved (refunded i txs) o).1)
refunded_parts i txs txs' o e = (ap (λ r. r.0) e, ap (λ r. r.1) e)

Settled-Change :
    (txs txs' : List Transaction) (q q' : List QueueRow) (now now' : ℕ) (p : Bool) (m m' : Message)
    → now ≤ now'
    → Settled txs q now m
    → Change q' p m m'
    → count_kind debit m.id txs' ≡ count_kind debit m.id txs
    → amount_kind debit m.id txs' ≡ amount_kind debit m.id txs
    → refunded m.id txs' ≡ moved (refunded m.id txs) (if p then some m.cost else none)
    → Settled txs' q' now' m'
Settled-Change txs txs' q q' now now' true m m' late s c dc da r =
    let (rc, ra) = refunded_parts m.id txs txs' (some m.cost) r in
    record {
      debit_once = ground (arith, s, c, dc);
      debit_cost = ground (arith, s, c, da);
      refund_due = ground (arith, s, c, rc, c.first_time refl);
      refund_cost = ground (arith, s, c, ra, c.first_time refl, only_cost m.cost);
      waiting = λ e. rw c.same_id (c.still_waiting e);
      unsent = c.still_unsent;
      timely = c.in_time;
      past = omega (arith, s.past, c.same_accepted);
      costly = omega (arith, s.costly, c.same_cost);
    }
  where
    only_cost : (n : ℕ) → pos n +ℤ pos 0 ≡ pos n
    only_cost n = omega int_laws
Settled-Change txs txs' q q' now now' false m m' late s c dc da r =
    let (rc, ra) = refunded_parts m.id txs txs' none r in
    record {
      debit_once = ground (arith, s, c, dc);
      debit_cost = ground (arith, s, c, da);
      refund_due = ground (arith, s, c, rc);
      refund_cost = ground (arith, s, c, ra);
      waiting = λ e. rw c.same_id (c.still_waiting e);
      unsent = c.still_unsent;
      timely = c.in_time;
      past = omega (arith, s.past, c.same_accepted);
      costly = omega (arith, s.costly, c.same_cost);
    }

-- The messages that an update refunds are listed by `refunds_where`.
absent-refunds_where :
    (i : ℕ) (p : Message → Bool) (ms : List Message)
    → has_message i ms ≡ false
    → first_refund i (refunds_where p ms) ≡ none
unfolding has_message first_refund refunds_where
absent-refunds_where i p [] h = refl
absent-refunds_where i p (m ∷ ms) h = ground (arith, absent-refunds_where i p ms)

pub others_differ : (i : ℕ) (ms : List Message) → has_message i ms ≡ false → All (λ m. m.id ≢ i) ms
unfolding has_message
others_differ i [] h = tt
others_differ i (m ∷ ms) h = (ground arith, others_differ i ms (ground arith))

first_refund-refunds_where :
    (p : Message → Bool) (ms : List Message)
    → Distinct ms
    → All (λ m. first_refund m.id (refunds_where p ms) ≡ (if p m then some m.cost else none)) ms
unfolding first_refund refunds_where
first_refund-refunds_where p [] u = tt
first_refund-refunds_where p (m ∷ ms) u = (
  ground (arith, absent-refunds_where m.id p ms u.0),
  All-zip _ _ _ ms (λ m' ne e. skip_head m' ne e) (others_differ m.id ms u.0)
      (first_refund-refunds_where p ms u.1),
)
  where
    skip_head :
        (m' : Message)
        → m'.id ≢ m.id
        → first_refund m'.id (refunds_where p ms) ≡ (if p m' then some m'.cost else none)
        → first_refund m'.id (refunds_where p (m ∷ ms)) ≡ (if p m' then some m'.cost else none)
    skip_head m' ne e = ground (arith, ne, e)

record Listed (p : Message → Bool) (q : List QueueRow) (f : Message → Message) (ms : List Message)
    (m : Message) : Type 0 where
  listed : first_refund m.id (refunds_where p ms) ≡ (if p m then some m.cost else none)
  change : Change q (p m) m (f m)

no_refunds : (ms : List Message) → refunds_where (λ m. false) ms ≡ []
unfolding refunds_where
no_refunds [] = refl
no_refunds (m ∷ ms) = no_refunds ms

Refunded-refl : (d : Db) → Refunded [] d d
unfolding first_refund
Refunded-refl d = record {
  same_messages = refl;
  same_queue = refl;
  same_customer = λ k. refl;
  balances = λ b. b;
  debits = λ i. (refl, refl);
  refunds = λ i. refl;
  no_message = λ i e. refl;
  no_customer = λ k e. refl;
}

-- The queue may be changed after the refunds as well as before.
pub Refunded-queue :
    (rs : List Refund) (q : List QueueRow) (d d' : Db)
    → Refunded rs d d'
    → Refunded rs (record d { queue = q }) (record d' { queue = q })
Refunded-queue rs q d d' r = record {
  same_messages = r.same_messages;
  same_queue = refl;
  same_customer = r.same_customer;
  balances = r.balances;
  debits = r.debits;
  refunds = r.refunds;
  no_message = r.no_message;
  no_customer = r.no_customer;
}

-- An update of messages by `f` and of the queue, together with the refunds of the messages at which
-- `p` holds, keeps the invariant if it changes every message as `Change` allows.
pub Inv-update :
    (now now' : ℕ) (f : Message → Message) (p : Message → Bool) (q : List QueueRow) (d d' : Db)
    → now ≤ now'
    → Inv now d
    → ((m : Message) → (f m).id ≡ m.id)
    → All (λ m. Change q (p m) m (f m)) d.messages
    → Refunded (refunds_where p d.messages) (record d { messages = map f d.messages; queue = q }) d'
    → Inv now' d'
Inv-update now now' f p q d d' late v same change r = record {
  balanced = r.balances v.balanced;
  settled =
      rw (r.same_messages, r.same_queue)
        (All-map (Settled d'.transactions q now') f d.messages (
          All-zip (Settled d.transactions d.queue now) (Listed p q f d.messages)
            (λ m. Settled d'.transactions q now' (f m)) d.messages
            (λ m s l.
              Settled-Change d.transactions d'.transactions d.queue q now now' (p m) m (f m) late s
                l.change (r.debits m.id).0 (r.debits m.id).1
                (r.refunds m.id ∙ ap (moved (refunded m.id d.transactions)) l.listed))
            v.settled
            (All-zip _ _ (Listed p q f d.messages) d.messages
              (λ m e c. record { listed = e; change = c })
              (first_refund-refunds_where p d.messages v.distinct) change)));
  distinct = rw r.same_messages (Distinct-map f d.messages same v.distinct);
  known_message = λ i e.
      let e' =
        sym (has_message-map i f d.messages same) ∙ sym (ap (has_message i) r.same_messages) ∙ e in
      let k = v.known_message i e' in
      ((r.debits i).0 ∙ k.0, r.no_message i (sym (ap (has_message i) r.same_messages) ∙ e) ∙ k.1);
  known_customer =
      λ k e. let e' = sym (r.same_customer k) ∙ e in r.no_customer k e' ∙ v.known_customer k e';
}

-- Nothing is refunded by an update that changes no transaction.
pub Inv-map :
    (now now' : ℕ) (f : Message → Message) (q : List QueueRow) (d : Db)
    → now ≤ now'
    → Inv now d
    → ((m : Message) → (f m).id ≡ m.id)
    → All (λ m. Change q false m (f m)) d.messages
    → Inv now' (record d { messages = map f d.messages; queue = q })
Inv-map now now' f q d late v same change =
    Inv-update now now' f (λ m. false) q d (record d { messages = map f d.messages; queue = q })
      late v same change
      (rw (no_refunds d.messages)
        (Refunded-refl (record d { messages = map f d.messages; queue = q })))

-- So is an update of the queue that keeps the row of every accepted message.
pub Inv-rows :
    (now now' : ℕ) (q : List QueueRow) (d : Db)
    → now ≤ now'
    → Inv now d
    → All (λ m. is_accepted m.status ≡ true → queued m.id q ≡ true) d.messages
    → Inv now' (record d { queue = q })
Inv-rows now now' q d late v keeps = record {
  balanced = v.balanced;
  settled =
      All-zip (Settled d.transactions d.queue now) _ (Settled d.transactions q now') d.messages
        (λ m s h. record {
          debit_once = s.debit_once;
          debit_cost = s.debit_cost;
          refund_due = s.refund_due;
          refund_cost = s.refund_cost;
          waiting = h;
          unsent = s.unsent;
          timely = s.timely;
          past = omega (arith, s.past);
          costly = s.costly;
        })
        v.settled keeps;
  distinct = v.distinct;
  known_message = v.known_message;
  known_customer = v.known_customer;
}

pub Inv-queue :
    (now now' : ℕ) (q : List QueueRow) (d : Db)
    → now ≤ now'
    → Inv now d
    → ((i : ℕ) → queued i d.queue ≡ true → queued i q ≡ true)
    → Inv now' (record d { queue = q })
Inv-queue now now' q d late v keeps = Inv-rows now now' q d late v (
    All-imp (Settled d.transactions d.queue now) _ d.messages (λ m s e. keeps m.id (s.waiting e))
      v.settled)

pub Inv-later : (now now' : ℕ) (d : Db) → now ≤ now' → Inv now d → Inv now' d
Inv-later now now' d late v = Inv-queue now now' d.queue d late v (λ i h. h)
