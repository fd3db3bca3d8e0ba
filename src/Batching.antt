-- ===== src/Batching.antt =====
-- Collecting values into batches, as the goroutines of internal/dispatch/completer.go and
-- internal/dlr/batcher.go do: a select over a channel, a timer that forces a flush, and a stop.
use sms_gateway.Common.{
  ℕ, ◌≤◌, ◌<◌, ◌≡◌, refl, ap, ◌∙◌, Bool, true, false, List, [], ◌∷◌, ◌++◌, leb, length,
  length-append, if◌then◌else◌, arith, All, append_assoc, append-nil, sym, Bool-cases, inl, inr,
}

-- What the loop receives before it is stopped.
pub data Event (A : Type 0) : Type 0 where
  received : A → Event A
  timer_fired : Event A

abbrev pub values : {A : Type 0} → List (Event A) → List A
values [] = []
values (received x ∷ es) = x ∷ values es
values (timer_fired ∷ es) = values es

abbrev pub concat : {A : Type 0} → List (List A) → List A
concat [] = []
concat (b ∷ bs) = b ++ concat bs

pub choose :
    {B : Type 0} (P : B → Type 0) (b : Bool) (x y : B)
    → (b ≡ true → P x)
    → (b ≡ false → P y)
    → P (if b then x else y)
choose P true x y f g = f refl
choose P false x y f g = g refl

module _ {A : Type 0} where
  -- `flush`, which does nothing to an empty batch: the batch that is committed, before the others.
  abbrev pub flushed : List A → List (List A) → List (List A)
  flushed [] rest = rest
  flushed (x ∷ xs) rest = (x ∷ xs) ∷ rest

module _ {A : Type 0} (size : ℕ) where
  abbrev pub full : List A → Bool
  full batch = leb size (length batch)

  -- The drain loop of the completer, over the values that are left in the channel.
  unfoldable pub drain_batches : List A → List A → List (List A)
  drain_batches batch [] = flushed batch []
  drain_batches batch (x ∷ xs) =
      let filled = flushed (batch ++ x ∷ []) (drain_batches [] xs) in
      let longer = drain_batches (batch ++ x ∷ []) xs in
      if full (batch ++ x ∷ []) then filled else longer

  -- The batches of the loop, from a batch that is being filled, and what follows the stop.
  unfoldable pub batches : (List A → List (List A)) → List A → List (Event A) → List (List A)
  batches stop batch [] = stop batch
  batches stop batch (timer_fired ∷ es) = flushed batch (batches stop [] es)
  batches stop batch (received x ∷ es) =
      let filled = flushed (batch ++ x ∷ []) (batches stop [] es) in
      let longer = batches stop (batch ++ x ∷ []) es in
      if full (batch ++ x ∷ []) then filled else longer

  pub concat-flushed :
      (b : List A) (rest : List (List A)) → concat (flushed b rest) ≡ b ++ concat rest
  concat-flushed [] rest = refl
  concat-flushed (x ∷ xs) rest = refl

  pub concat-drain_batches : (batch xs : List A) → concat (drain_batches batch xs) ≡ batch ++ xs
  unfolding drain_batches
  concat-drain_batches batch [] = concat-flushed batch []
  concat-drain_batches batch (x ∷ xs) =
      choose (λ (r : List (List A)). concat r ≡ batch ++ x ∷ xs) (full (batch ++ x ∷ []))
        (flushed (batch ++ x ∷ []) (drain_batches [] xs)) (drain_batches (batch ++ x ∷ []) xs)
        (λ _.
          concat-flushed (batch ++ x ∷ []) (drain_batches [] xs)
          ∙ ap (λ r. (batch ++ x ∷ []) ++ r) (concat-drain_batches [] xs)
          ∙ append_assoc batch (x ∷ []) xs)
        (λ _. concat-drain_batches (batch ++ x ∷ []) xs ∙ append_assoc batch (x ∷ []) xs)

  -- Nothing that was received is lost, repeated or put out of order.
  pub concat-batches :
      (stop : List A → List (List A)) (rest batch : List A) (es : List (Event A))
      → ((b : List A) → concat (stop b) ≡ b ++ rest)
      → concat (batches stop batch es) ≡ batch ++ (values es ++ rest)
  unfolding batches
  concat-batches stop rest batch [] h = h batch
  concat-batches stop rest batch (timer_fired ∷ es) h =
      concat-flushed batch (batches stop [] es)
      ∙ ap (λ r. batch ++ r) (concat-batches stop rest [] es h)
  concat-batches stop rest batch (received x ∷ es) h =
      choose (λ (r : List (List A)). concat r ≡ batch ++ x ∷ (values es ++ rest))
        (full (batch ++ x ∷ [])) (flushed (batch ++ x ∷ []) (batches stop [] es))
        (batches stop (batch ++ x ∷ []) es)
        (λ _.
          concat-flushed (batch ++ x ∷ []) (batches stop [] es)
          ∙ ap (λ r. (batch ++ x ∷ []) ++ r) (concat-batches stop rest [] es h)
          ∙ append_assoc batch (x ∷ []) (values es ++ rest))
        (λ _.
          concat-batches stop rest (batch ++ x ∷ []) es h
          ∙ append_assoc batch (x ∷ []) (values es ++ rest))

  -- The batch that is being filled when the loop ends.
  unfoldable pub pending : List A → List (Event A) → List A
  pending batch [] = batch
  pending batch (timer_fired ∷ es) = pending [] es
  pending batch (received x ∷ es) =
      let filled = pending [] es in
      let longer = pending (batch ++ x ∷ []) es in if full (batch ++ x ∷ []) then filled else longer

  pub length-pending :
      (batch : List A) (es : List (Event A))
      → length batch < size
      → length (pending batch es) < size
  unfolding pending
  length-pending batch [] h = h
  length-pending batch (timer_fired ∷ es) h = length-pending [] es (omega (arith, h))
  length-pending batch (received x ∷ es) h =
      choose (λ (r : List A). length r < size) (full (batch ++ x ∷ [])) (pending [] es)
        (pending (batch ++ x ∷ []) es) (λ _. length-pending [] es (omega (arith, h)))
        (λ e. length-pending (batch ++ x ∷ []) es (ground (arith, e)))

  -- A loop that drops its last batch.
  pub concat-batches_dropped :
      (batch : List A) (es : List (Event A))
      → concat (batches (λ b. []) batch es) ++ pending batch es ≡ batch ++ values es
  unfolding batches pending
  concat-batches_dropped batch [] = sym (append-nil batch)
  concat-batches_dropped batch (timer_fired ∷ es) =
      ap (λ r. r ++ pending [] es) (concat-flushed batch (batches (λ b. []) [] es))
      ∙ append_assoc batch _ _
      ∙ ap (λ r. batch ++ r) (concat-batches_dropped [] es)
  concat-batches_dropped batch (received x ∷ es) = elim (Bool-cases (full (batch ++ x ∷ []))) [
    | inl e ↦ rw e (
        ap (λ r. r ++ pending [] es) (concat-flushed (batch ++ x ∷ []) (batches (λ b. []) [] es))
        ∙ append_assoc (batch ++ x ∷ []) _ _
        ∙ ap (λ r. (batch ++ x ∷ []) ++ r) (concat-batches_dropped [] es)
        ∙ append_assoc batch (x ∷ []) (values es))
    | inr e ↦
        rw e (concat-batches_dropped (batch ++ x ∷ []) es ∙ append_assoc batch (x ∷ []) (values es))
  ]

  -- A batch that is committed: not empty, and no larger than the configured size.
  abbrev pub Sized : List A → Type 0
  Sized b = (0 < length b) × (length b ≤ size)

  flushed-Sized :
      (b : List A) (rest : List (List A))
      → length b ≤ size
      → All Sized rest
      → All Sized (flushed b rest)
  flushed-Sized [] rest h k = k
  flushed-Sized (x ∷ xs) rest h k = ((omega arith, h), k)

  fits : (batch : List A) (x : A) → length batch < size → length (batch ++ x ∷ []) ≤ size
  fits batch x h = omega (arith, length-append batch (x ∷ []), h)

  pub drain_batches-Sized :
      (batch xs : List A) → length batch < size → All Sized (drain_batches batch xs)
  unfolding drain_batches
  drain_batches-Sized batch [] h = flushed-Sized batch [] (omega (arith, h)) tt
  drain_batches-Sized batch (x ∷ xs) h =
      choose (All Sized) (full (batch ++ x ∷ [])) (flushed (batch ++ x ∷ []) (drain_batches [] xs))
        (drain_batches (batch ++ x ∷ []) xs)
        (λ _.
          flushed-Sized (batch ++ x ∷ []) _ (fits batch x h)
            (drain_batches-Sized [] xs (omega (arith, h))))
        (λ e. drain_batches-Sized (batch ++ x ∷ []) xs (ground (arith, e)))

  pub batches-Sized :
      (stop : List A → List (List A)) (batch : List A) (es : List (Event A))
      → ((b : List A) → length b < size → All Sized (stop b))
      → length batch < size
      → All Sized (batches stop batch es)
  unfolding batches
  batches-Sized stop batch [] k h = k batch h
  batches-Sized stop batch (timer_fired ∷ es) k h =
      flushed-Sized batch _ (omega (arith, h)) (batches-Sized stop [] es k (omega (arith, h)))
  batches-Sized stop batch (received x ∷ es) k h =
      choose (All Sized) (full (batch ++ x ∷ [])) (flushed (batch ++ x ∷ []) (batches stop [] es))
        (batches stop (batch ++ x ∷ []) es)
        (λ _.
          flushed-Sized (batch ++ x ∷ []) _ (fits batch x h)
            (batches-Sized stop [] es k (omega (arith, h))))
        (λ e. batches-Sized stop (batch ++ x ∷ []) es k (ground (arith, e)))
