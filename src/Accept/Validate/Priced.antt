-- ===== src/Accept/Validate/Priced.antt =====
-- The items that `prepare` makes of a submission.
use sms_gateway.Common.{
  ℕ, zero, suc, ◌+◌, ◌*◌, ◌≤◌, ◌<◌, ◌≡◌, refl, sym, ap, subst, ◌∙◌, Bool, true, false, ◌&&◌, not,
  Option, none, some, List, [], ◌∷◌, leb, length, arith, All,
}
use sms_gateway.Common.Text.{Text}
use sms_gateway.Segment.{count}
use sms_gateway.Segment.Split.{count_pos}
use sms_gateway.Message.{MessageType, parse_type, per_segment, message_cost}
use sms_gateway.Store.Tables.{null_text}
use sms_gateway.Accept.{Item, AcceptConfig, refused}
use sms_gateway.Accept.Validate.{
  FieldError, Request, valid_client_ref, valid_text, is_empty, type_text, type_or_normal,
  segments_of, stored_ref, add_ref, item_of, prepare_from, Prepared, prepared, invalid, conclude,
  prepare,
}
use sms_gateway.Accept.Validate.Laws.{
  known, ref_ok, valid_request, all_valid, unseen, see, refs_differ, is_prepared, size_ok,
  add_ref-see, valid-ref_ok, prepare_iff, and_left, and_right,
}

-- An item carries its request, counted and priced within the limits.
pub record Priced (cfg : AcceptConfig) (r : Request) (x : Item) : Type 0 where
  pub same_recipient : x.recipient ≡ r.recipient
  pub same_text : x.text ≡ r.text
  pub named_type : parse_type (type_text r.type_name) ≡ some x.message_type
  pub same_ref : null_text x.ref ≡ r.client_ref
  pub counted : x.seg ≡ count r.text
  pub some_segments : 1 ≤ x.seg.segments
  pub few_segments : x.seg.segments ≤ cfg.max_segments
  pub price : x.cost ≡ x.seg.segments * per_segment cfg.prices x.message_type

abbrev pub Matches : AcceptConfig → List Request → List Item → Type 0
Matches cfg [] [] = Unit
Matches cfg [] (x ∷ xs) = ⊥
Matches cfg (r ∷ rs) [] = ⊥
Matches cfg (r ∷ rs) (x ∷ xs) = Priced cfg r x × Matches cfg rs xs

known-some : (t : Option MessageType) → known t ≡ true → t ≡ some (type_or_normal t)
known-some none h = cc
known-some (some t) h = refl

stored_ref_lem :
    (seen : List Text) (ref : Option Text)
    → ref_ok ref ≡ true
    → unseen seen ref ≡ true
    → null_text (stored_ref seen ref) ≡ ref
unfolding valid_client_ref
stored_ref_lem seen none h k = refl
stored_ref_lem seen (some []) h k = ground (arith, h)
stored_ref_lem seen (some (c ∷ s)) h k = ground (arith, h, k)

segments_of-count :
    (s : Text)
    → not (is_empty s) ≡ true
    → valid_text s ≡ true
    → (segments_of s ≡ count s) × (1 ≤ (count s).segments)
unfolding segments_of
segments_of-count [] h k = ground (arith, h)
segments_of-count (c ∷ s) h k = (rw k refl, count_pos c s)

items_of : List Item → Prepared → List Item
items_of other (prepared items) = items
items_of other (invalid es) = other

prepared_items : {a b : List Item} → prepared a ≡ prepared b → a ≡ b
unfolding items_of
prepared_items {a} h = ap (items_of a) h

module _ (cfg : AcceptConfig) where
  item_of-Priced :
      (seen : List Text) (r : Request)
      → valid_request cfg r ≡ true
      → unseen seen r.client_ref ≡ true
      → Priced cfg r (item_of cfg seen r)
  unfolding item_of message_cost
  item_of-Priced seen r v u =
      let k : known (parse_type (type_text r.type_name)) ≡ true = ground (arith, v) in
      let n : not (is_empty r.text) ≡ true = ground (arith, v) in
      let t : valid_text r.text ≡ true = ground (arith, v) in
      let m : leb (count r.text).segments cfg.max_segments ≡ true = ground (arith, v) in
      let c = segments_of-count r.text n t in
      record {
        same_recipient = refl;
        same_text = refl;
        named_type = known-some (parse_type (type_text r.type_name)) k;
        same_ref = stored_ref_lem seen r.client_ref (valid-ref_ok cfg r v) u;
        counted = c.0;
        some_segments = rw c.0 c.1;
        few_segments = rw c.0 (ground (arith, m));
        price = refl;
      }

  prepare_from-Matches :
      (itoa : ℕ → Text) (batch : Bool) (i : ℕ) (seen : List Text) (rs : List Request)
      → all_valid cfg rs ≡ true
      → refs_differ seen rs ≡ true
      → Matches cfg rs (prepare_from cfg itoa batch i seen rs).1
  unfolding prepare_from
  prepare_from-Matches itoa batch i seen [] v d = tt
  prepare_from-Matches itoa batch i seen (r ∷ rs) v d =
      let v₀ = and_left (valid_request cfg r) (all_valid cfg rs) v in
      let d₀ = and_left (unseen seen r.client_ref) (refs_differ (see seen r.client_ref) rs) d in
      let e = add_ref-see cfg itoa batch seen r.client_ref (valid-ref_ok cfg r v₀) d₀ in
      (
        item_of-Priced seen r v₀ d₀,
        prepare_from-Matches itoa batch (i + 1) (add_ref seen r.client_ref) rs
            (and_right (valid_request cfg r) (all_valid cfg rs) v)
            (ap (λ s. refs_differ s rs) e
              ∙ and_right (unseen seen r.client_ref) (refs_differ (see seen r.client_ref) rs) d),
      )

  concluded :
      (itoa : ℕ → Text) (batch : Bool) (reqs : List Request) {items : List Item}
      → prepare cfg itoa batch reqs ≡ prepared items
      → conclude (prepare_from cfg itoa batch 0 [] reqs).0 (prepare_from cfg itoa batch 0 [] reqs).1
        ≡ prepared items
  unfolding prepare
  concluded itoa batch reqs {items} h = ground (arith, h)

  prepare_good :
      (itoa : ℕ → Text) (batch : Bool) (reqs : List Request) (items : List Item)
      → prepare cfg itoa batch reqs ≡ prepared items
      → (all_valid cfg reqs && refs_differ [] reqs) ≡ true
  prepare_good itoa batch reqs items h =
      and_right (size_ok batch (length reqs)) (all_valid cfg reqs && refs_differ [] reqs)
        (sym (prepare_iff cfg itoa batch reqs) ∙ ap is_prepared h)

  pub prepare-refs_differ :
      (itoa : ℕ → Text) (batch : Bool) (reqs : List Request) (items : List Item)
      → prepare cfg itoa batch reqs ≡ prepared items
      → refs_differ [] reqs ≡ true
  prepare-refs_differ itoa batch reqs items h =
      and_right (all_valid cfg reqs) (refs_differ [] reqs) (prepare_good itoa batch reqs items h)

  matched :
      (es : List FieldError) (made items : List Item) (rs : List Request)
      → Matches cfg rs made
      → conclude es made ≡ prepared items
      → Matches cfg rs items
  matched [] made items rs m h = subst (Matches cfg rs) (prepared_items h) m
  matched (e ∷ es) made items rs m h = cc

  -- If `prepare` takes a submission, its items are those of the requests in order: each has its request's
  -- recipient, text, client_ref and type, normal for an empty type name, the counted segments of its text,
  -- which are at least one and no more than the configured number, and the price of that many segments of
  -- its type.
  pub prepare-Matches :
      (itoa : ℕ → Text) (batch : Bool) (reqs : List Request) (items : List Item)
      → prepare cfg itoa batch reqs ≡ prepared items
      → Matches cfg reqs items
  prepare-Matches itoa batch reqs items h =
      let good = prepare_good itoa batch reqs items h in
      matched (prepare_from cfg itoa batch 0 [] reqs).0 (prepare_from cfg itoa batch 0 [] reqs).1
        items reqs
        (prepare_from-Matches itoa batch 0 [] reqs
          (and_left (all_valid cfg reqs) (refs_differ [] reqs) good)
          (and_right (all_valid cfg reqs) (refs_differ [] reqs) good))
        (concluded itoa batch reqs h)

mul_pos : (a b : ℕ) → 1 ≤ a → 1 ≤ b → 1 ≤ a * b
mul_pos zero b h k = omega (arith, h)
mul_pos (suc a) b h k = omega (arith, k)

Priced-fit :
    (cfg : AcceptConfig) (r : Request) (x : Item)
    → 0 < cfg.prices.normal_price
    → 0 < cfg.prices.express_price
    → cfg.max_segments ≤ 10
    → Priced cfg r x
    → refused x ≡ false
unfolding per_segment
Priced-fit cfg r x pn pe m p =
    let unit : 1 ≤ per_segment cfg.prices x.message_type = ground (arith, pn, pe) in
    let cost : 1 ≤ x.cost =
      rw p.price
        (mul_pos x.seg.segments (per_segment cfg.prices x.message_type) p.some_segments unit) in
    ground (arith, cost, p.some_segments, p.few_segments, m)

Matches-fit :
    (cfg : AcceptConfig) (rs : List Request) (xs : List Item)
    → 0 < cfg.prices.normal_price
    → 0 < cfg.prices.express_price
    → cfg.max_segments ≤ 10
    → Matches cfg rs xs
    → All (λ x. refused x ≡ false) xs
Matches-fit cfg [] [] pn pe m h = tt
Matches-fit cfg [] (x ∷ xs) pn pe m h = absurd h
Matches-fit cfg (r ∷ rs) [] pn pe m h = absurd h
Matches-fit cfg (r ∷ rs) (x ∷ xs) pn pe m h =
    (Priced-fit cfg r x pn pe m h.0, Matches-fit cfg rs xs pn pe m h.1)

-- With prices above zero and ten segments at most, as the configuration requires, no item of an accepted
-- submission meets the CHECK constraints of the table `messages`.
pub prepared_fit :
    (cfg : AcceptConfig) (itoa : ℕ → Text) (batch : Bool) (reqs : List Request) (items : List Item)
    → 0 < cfg.prices.normal_price
    → 0 < cfg.prices.express_price
    → cfg.max_segments ≤ 10
    → prepare cfg itoa batch reqs ≡ prepared items
    → All (λ x. refused x ≡ false) items
prepared_fit cfg itoa batch reqs items pn pe m h =
    Matches-fit cfg reqs items pn pe m (prepare-Matches cfg itoa batch reqs items h)
