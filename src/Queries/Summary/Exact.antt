-- ===== src/Queries/Summary/Exact.antt =====
-- internal/message/report.go: what the summary adds up.
use sms_gateway.Common.{
  ◌≡◌, refl, sym, ap, ◌∙◌, Bool, true, false, ◌&&◌, List, [], ◌∷◌, ◌++◌, keep, if◌then◌else◌,
}
use sms_gateway.Common.Int.{ℤ, pos, ◌+ℤ◌, int_laws}
use sms_gateway.Message.{
  MessageType, normal, express, Status, accepted, sent, delivered, undelivered, failed, expired,
}
use sms_gateway.Queries.Messages.{same_status, type_is}
use sms_gateway.Queries.Summary.{
  total, flat, keys, Joined, Group, Summary, grouped, group_of, groups, in_group, add_group,
  add_groups,
}

add_swap : (a b c d : ℤ) → (a +ℤ b) +ℤ (c +ℤ d) ≡ (a +ℤ c) +ℤ (b +ℤ d)
add_swap a b c d = omega int_laws

add_assoc : (a b c : ℤ) → (a +ℤ b) +ℤ c ≡ a +ℤ (b +ℤ c)
add_assoc a b c = omega int_laws

pub zero_add : (a : ℤ) → pos 0 +ℤ a ≡ a
zero_add a = omega int_laws

pub add_zero : (a : ℤ) → a +ℤ pos 0 ≡ a
add_zero a = omega int_laws

module _ {ℓ} {A : Type ℓ} where
  total-add : (f g : A → ℤ) (xs : List A) → total (λ x. f x +ℤ g x) xs ≡ total f xs +ℤ total g xs
  total-add f g [] = sym (zero_add (pos 0))
  total-add f g (x ∷ xs) =
      ap (λ r. (f x +ℤ g x) +ℤ r) (total-add f g xs)
      ∙ add_swap (f x) (g x) (total f xs) (total g xs)

  pub total_ext : (f g : A → ℤ) → ((x : A) → f x ≡ g x) → (xs : List A) → total f xs ≡ total g xs
  total_ext f g h [] = refl
  total_ext f g h (x ∷ xs) = rw (h x, total_ext f g h xs) refl

  total-append : (f : A → ℤ) (xs ys : List A) → total f (xs ++ ys) ≡ total f xs +ℤ total f ys
  total-append f [] ys = sym (zero_add (total f ys))
  total-append f (x ∷ xs) ys =
      ap (λ r. f x +ℤ r) (total-append f xs ys) ∙ sym (add_assoc (f x) (total f xs) (total f ys))

  total-flat {κ} :
      {B : Type κ} (f : A → ℤ) (g : B → List A) (ys : List B)
      → total f (flat g ys) ≡ total (λ y. total f (g y)) ys
  total-flat f g [] = refl
  total-flat f g (y ∷ ys) =
      total-append f (g y) (flat g ys) ∙ ap (λ r. total f (g y) +ℤ r) (total-flat f g ys)

nothing : (b : Bool) → (if b then pos 0 else pos 0) ≡ pos 0
nothing true = refl
nothing false = refl

ruleset drop_nothing = (nothing, zero_add, add_zero)

abbrev pub of_group : (MessageType → Status → Bool) → (Group → ℤ) → Group → ℤ
of_group c v g = if c g.group_type g.group_status then v g else pos 0

abbrev pub of_row : (MessageType → Status → Bool) → (Joined → ℤ) → Joined → ℤ
of_row c u r = if c r.message.message_type r.message.status then u r else pos 0

-- The rows of some groups, counted by `u`; `v` reads the same number off a group.
module _ (c : MessageType → Status → Bool) (v : Group → ℤ) (u : Joined → ℤ)
    (reads : (t : MessageType) (s : Status) (rows : List Joined)
      → v (group_of t s rows) ≡ total u rows) where
  part : List Joined → MessageType × Status → ℤ
  part rows k = if c k.0 k.1 then total u (keep (in_group k) rows) else pos 0

  one : Joined → MessageType × Status → ℤ
  one r k = if c k.0 k.1 then (if in_group k r then u r else pos 0) else pos 0

  total-grouped :
      (t : MessageType) (s : Status) (rows : List Joined)
      → total (of_group c v) (grouped t s rows) ≡ (if c t s then total u rows else pos 0)
  total-grouped t s [] = sym (nothing (c t s))
  total-grouped t s (r ∷ rs) =
      add_zero _ ∙ ap (λ n. if c t s then n else pos 0) (reads t s (r ∷ rs))

  part-cons :
      (r : Joined) (rs : List Joined) (k : MessageType × Status)
      → part (r ∷ rs) k ≡ one r k +ℤ part rs k
  unfolding part one
  part-cons r rs k = choose (c k.0 k.1) (in_group k r)
    where
      choose :
          (b i : Bool)
          → (if b
              then total u (if i then r ∷ keep (in_group k) rs else keep (in_group k) rs)
              else pos 0)
            ≡ (if b then (if i then u r else pos 0) else pos 0)
              +ℤ (if b then total u (keep (in_group k) rs) else pos 0)
      choose true true = refl
      choose true false = sym (zero_add _)
      choose false i = sym (zero_add _)

  alone :
      (n : ℤ) (t : MessageType) (s : Status)
      → total
          (λ k.
            if c k.0 k.1 then (if type_is k.0 t && same_status k.1 s then n else pos 0) else pos 0)
          keys
        ≡ (if c t s then n else pos 0)
  unfolding keys
  alone n normal accepted = simp drop_nothing
  alone n normal sent = simp drop_nothing
  alone n normal delivered = simp drop_nothing
  alone n normal undelivered = simp drop_nothing
  alone n normal failed = simp drop_nothing
  alone n normal expired = simp drop_nothing
  alone n express accepted = simp drop_nothing
  alone n express sent = simp drop_nothing
  alone n express delivered = simp drop_nothing
  alone n express undelivered = simp drop_nothing
  alone n express failed = simp drop_nothing
  alone n express expired = simp drop_nothing

  total-one : (r : Joined) → total (one r) keys ≡ of_row c u r
  unfolding one
  total-one r = alone (u r) r.message.message_type r.message.status

  parts : (rows : List Joined) → total (part rows) keys ≡ total (of_row c u) rows
  unfolding part keys
  parts [] = simp drop_nothing
  parts (r ∷ rs) =
      total_ext (part (r ∷ rs)) (λ k. one r k +ℤ part rs k) (part-cons r rs) keys
      ∙ total-add (one r) (part rs) keys
      ∙ rw (total-one r, parts rs) refl

  pub total-groups :
      (rows : List Joined) → total (of_group c v) (groups rows) ≡ total (of_row c u) rows
  unfolding groups part
  total-groups rows =
      total-flat (of_group c v) (λ k. grouped k.0 k.1 (keep (in_group k) rows)) keys
      ∙ total_ext _ (part rows) (λ k. total-grouped k.0 k.1 (keep (in_group k) rows)) keys
      ∙ parts rows

-- A number of the summary to which each group adds its own.
pub total-add_groups :
    (number : Summary → ℤ) (of : Group → ℤ)
    → ((sum : Summary) (g : Group) → number (add_group sum g) ≡ number sum +ℤ of g)
    → (sum : Summary) (gs : List Group) → number (add_groups sum gs) ≡ number sum +ℤ total of gs
total-add_groups number of h sum [] = sym (add_zero (number sum))
total-add_groups number of h sum (g ∷ gs) =
    total-add_groups number of h (add_group sum g) gs
    ∙ ap (λ n. n +ℤ total of gs) (h sum g)
    ∙ add_assoc (number sum) (of g) (total of gs)
