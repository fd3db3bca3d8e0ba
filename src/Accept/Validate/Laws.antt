-- ===== src/Accept/Validate/Laws.antt =====
-- Which submissions `prepare` takes, and what it makes of them.
use sms_gateway.Common.{
  ℕ, ◌+◌, ◌≡◌, inl, inr, refl, ap, ◌∙◌, Bool, true, false, ◌&&◌, ◌||◌, not, Option, none, some,
  List, [], ◌∷◌, ◌++◌, any, leb, length, arith, Bool-cases,
}
use sms_gateway.Common.Text.{Text, text_eq}
use sms_gateway.Segment.{count}
use sms_gateway.Message.{MessageType, parse_type}
use sms_gateway.Accept.{Item, AcceptConfig}
use sms_gateway.Accept.Validate.{
  FieldError, Request, max_batch_size, valid_recipient, valid_client_ref, valid_text, is_empty,
  type_text, problem, check_recipient, check_type, check_text, check_ref, add_ref, check,
  prepare_from, Prepared, prepared, invalid, conclude, prepare,
}

abbrev pub known : Option MessageType → Bool
known none = false
known (some t) = true

abbrev pub ref_ok : Option Text → Bool
ref_ok none = true
ref_ok (some ref) = valid_client_ref ref

-- What a request must satisfy by itself.
abbrev pub valid_request : AcceptConfig → Request → Bool
valid_request cfg r =
    valid_recipient r.recipient
    && (known (parse_type (type_text r.type_name))
        && ((not (is_empty r.text)
              && (valid_text r.text && leb (count r.text).segments cfg.max_segments))
            && ref_ok r.client_ref))

abbrev pub all_valid : AcceptConfig → List Request → Bool
all_valid cfg [] = true
all_valid cfg (r ∷ rs) = valid_request cfg r && all_valid cfg rs

abbrev pub unseen : List Text → Option Text → Bool
unseen seen none = true
unseen seen (some ref) = not (any (λ s. text_eq s ref) seen)

abbrev pub see : List Text → Option Text → List Text
see seen none = seen
see seen (some ref) = ref ∷ seen

-- No client_ref comes twice.
abbrev pub refs_differ : List Text → List Request → Bool
refs_differ seen [] = true
refs_differ seen (r ∷ rs) = unseen seen r.client_ref && refs_differ (see seen r.client_ref) rs

-- The size of a batch.
abbrev pub size_ok : Bool → ℕ → Bool
size_ok batch n = not batch || (leb 1 n && leb n max_batch_size)

abbrev pub is_prepared : Prepared → Bool
is_prepared (prepared items) = true
is_prepared (invalid es) = false

abbrev none_of : List FieldError → Bool
none_of [] = true
none_of (e ∷ es) = false

none_of-append : (a b : List FieldError) → none_of (a ++ b) ≡ (none_of a && none_of b)
none_of-append [] b = refl
none_of-append (e ∷ a) b = refl

pub and_left : (a b : Bool) → (a && b) ≡ true → a ≡ true
and_left a b h = ground (arith, h)

pub and_right : (a b : Bool) → (a && b) ≡ true → b ≡ true
and_right a b h = ground (arith, h)

both : (c v u x a d : Bool) → c ≡ (v && u) → x ≡ (a && d) → (c && x) ≡ ((v && a) && (u && d))
both c v u x a d h k = ground (arith, h, k)

neither : (c v u x a d : Bool) → c ≡ (v && u) → (v && u) ≡ false → (c && x) ≡ ((v && a) && (u && d))
neither c v u x a d h k = ground (arith, h, k)

right_of : (a b c d : Bool) → (a && (b && (c && d))) ≡ true → d ≡ true
right_of a b c d h = ground (arith, h)

pub valid-ref_ok :
    (cfg : AcceptConfig) (r : Request) → valid_request cfg r ≡ true → ref_ok r.client_ref ≡ true
valid-ref_ok cfg r =
    right_of (valid_recipient r.recipient) (known (parse_type (type_text r.type_name)))
      (not (is_empty r.text) && (valid_text r.text && leb (count r.text).segments cfg.max_segments))
      (ref_ok r.client_ref)

module _ (cfg : AcceptConfig) (itoa : ℕ → Text) (batch : Bool) where
  check_recipient-valid :
      (i : ℕ) (s : Text) → none_of (check_recipient cfg itoa batch i s) ≡ valid_recipient s
  unfolding check_recipient problem valid_recipient
  check_recipient-valid i [] = refl
  check_recipient-valid i (c ∷ s) = ground arith

  check_type-known :
      (i : ℕ) (t : Option MessageType) → none_of (check_type cfg itoa batch i t) ≡ known t
  unfolding problem
  check_type-known i none = refl
  check_type-known i (some t) = refl

  check_text-valid :
      (i : ℕ) (s : Text)
      → none_of (check_text cfg itoa batch i s)
        ≡ (not (is_empty s) && (valid_text s && leb (count s).segments cfg.max_segments))
  unfolding check_text problem
  check_text-valid i [] = refl
  check_text-valid i (c ∷ s) = ground arith

  check_ref-valid :
      (i : ℕ) (seen : List Text) (ref : Option Text)
      → none_of (check_ref cfg itoa batch i seen ref) ≡ (ref_ok ref && unseen seen ref)
  unfolding problem
  check_ref-valid i seen none = refl
  check_ref-valid i seen (some ref) = ground arith

  check-valid :
      (i : ℕ) (seen : List Text) (r : Request)
      → none_of (check cfg itoa batch i seen r) ≡ (valid_request cfg r && unseen seen r.client_ref)
  unfolding check
  check-valid i seen r =
      let a = check_recipient cfg itoa batch i r.recipient in
      let b = check_type cfg itoa batch i (parse_type (type_text r.type_name)) in
      let c = check_text cfg itoa batch i r.text in
      let e = check_ref cfg itoa batch i seen r.client_ref in
      ground (
        arith,
        none_of-append a (b ++ (c ++ e)),
        none_of-append b (c ++ e),
        none_of-append c e,
        check_recipient-valid i r.recipient,
        check_type-known i (parse_type (type_text r.type_name)),
        check_text-valid i r.text,
        check_ref-valid i seen r.client_ref,
      )

  pub add_ref-see :
      (seen : List Text) (ref : Option Text)
      → ref_ok ref ≡ true
      → unseen seen ref ≡ true
      → add_ref seen ref ≡ see seen ref
  add_ref-see seen none h k = refl
  add_ref-see seen (some ref) h k = ground (arith, h, k)

  none_of-prepare_from :
      (i : ℕ) (seen : List Text) (rs : List Request)
      → none_of (prepare_from cfg itoa batch i seen rs).0
        ≡ (all_valid cfg rs && refs_differ seen rs)
  unfolding prepare_from
  none_of-prepare_from i seen [] = refl
  none_of-prepare_from i seen (r ∷ rs) =
      let v = valid_request cfg r in
      let u = unseen seen r.client_ref in
      let seen' = add_ref seen r.client_ref in
      let c = none_of (check cfg itoa batch i seen r) in
      let x = none_of (prepare_from cfg itoa batch (i + 1) seen' rs).0 in
      let a = all_valid cfg rs in
      let d = refs_differ (see seen r.client_ref) rs in
      none_of-append (check cfg itoa batch i seen r)
        (prepare_from cfg itoa batch (i + 1) seen' rs).0
      ∙ elim (Bool-cases (v && u)) [
        | inl e ↦
            let ok : ref_ok r.client_ref ≡ true = valid-ref_ok cfg r (and_left v u e) in
            both c v u x a d (check-valid i seen r) (
              none_of-prepare_from (i + 1) seen' rs
              ∙ ap (λ s. all_valid cfg rs && refs_differ s rs)
                  (add_ref-see seen r.client_ref ok (and_right v u e)))
        | inr e ↦ neither c v u x a d (check-valid i seen r) e
      ]

  is_prepared-conclude :
      (es : List FieldError) (items : List Item) → is_prepared (conclude es items) ≡ none_of es
  is_prepared-conclude [] items = refl
  is_prepared-conclude (e ∷ es) items = refl

  -- A submission is taken exactly if it has 1 to 500 requests, in case of a batch; every request has an
  -- E.164 recipient, a known or empty type, a non-empty text of valid UTF-8 without NUL that takes no more
  -- than the configured segments, and no client_ref or a well-formed one; and no client_ref comes twice.
  pub prepare_iff :
      (reqs : List Request)
      → is_prepared (prepare cfg itoa batch reqs)
        ≡ (size_ok batch (length reqs) && (all_valid cfg reqs && refs_differ [] reqs))
  unfolding prepare
  prepare_iff reqs = ground (
    arith,
    is_prepared-conclude (prepare_from cfg itoa batch 0 [] reqs).0
        (prepare_from cfg itoa batch 0 [] reqs).1,
    none_of-prepare_from 0 [] reqs,
  )
