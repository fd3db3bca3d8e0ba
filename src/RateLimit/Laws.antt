-- ===== src/RateLimit/Laws.antt =====
-- Buckets do not affect each other, and fit a whole batch.
use sms_gateway.Common.{
  ℕ, ◌-◌, ◌≤◌, ◌≡◌, refl, ap, subst, ◌∙◌, Bool, true, false, ◌&&◌, not, Option, none, some, List,
  [], ◌∷◌, keep, ltb, ◌==◌, if◌then◌else◌, arith, Bool-cases, inl, inr,
}
use sms_gateway.RateLimit.{
  idle_after, Decision, Buckets, burst_of, Bucket, Limiter, find_bucket, put_bucket, sweep_idle,
  bucket_for, take_tokens, allow,
}

module _ {L : Type 0} where
  -- A bucket that the sweep leaves.
  abbrev pub unless_idle : ℕ → Limiter L → Option (Bucket L) → Option (Bucket L)
  unless_idle now l none = none
  unless_idle now l (some b) =
      if not (ltb (now - l.last_sweep) idle_after) && ltb idle_after (now - b.last_used)
      then none
      else some b

  find_bucket-keep_others :
      (k j : ℕ) (bs : List (ℕ × Bucket L))
      → (k == j) ≡ false
      → find_bucket j (keep (λ p. not (p.0 == k)) bs) ≡ find_bucket j bs
  unfolding find_bucket
  find_bucket-keep_others k j [] h = refl
  find_bucket-keep_others k j ((i, b) ∷ bs) h = ground (arith, h, find_bucket-keep_others k j bs h)

  find_bucket-put_bucket :
      (k j : ℕ) (b : Bucket L) (bs : List (ℕ × Bucket L))
      → find_bucket j (put_bucket k b bs) ≡ (if k == j then some b else find_bucket j bs)
  unfolding find_bucket put_bucket
  find_bucket-put_bucket k j b bs = elim (Bool-cases (k == j)) [
    | inl e ↦ rw e refl
    | inr e ↦ rw e (find_bucket-keep_others k j bs e)
  ]

  -- No customer has two buckets.
  abbrev pub Single : List (ℕ × Bucket L) → Type 0
  Single [] = Unit
  Single ((i, b) ∷ bs) = (find_bucket i bs ≡ none) × Single bs

  abbrev only_if : (Bucket L → Bool) → Option (Bucket L) → Option (Bucket L)
  only_if q none = none
  only_if q (some b) = if q b then some b else none

  find_bucket-keep :
      (q : Bucket L → Bool) (j : ℕ) (bs : List (ℕ × Bucket L))
      → Single bs
      → find_bucket j (keep (λ p. q p.1) bs) ≡ only_if q (find_bucket j bs)
  unfolding find_bucket
  find_bucket-keep q j [] h = refl
  find_bucket-keep q j ((i, b) ∷ bs) h =
      let ih = find_bucket-keep q j bs h.1 in
      elim (Bool-cases (i == j)) [
        | inl e ↦
            let same : i ≡ j = ground (arith, e) in
            let absent : find_bucket j bs ≡ none = subst (λ z. find_bucket z bs ≡ none) same h.0 in
            elim (Bool-cases (q b)) [
              | inl f ↦ rw (f, e, f) refl
              | inr f ↦ rw (f, e, f) (ih ∙ ap (only_if q) absent)
            ]
        | inr e ↦ elim (Bool-cases (q b)) [ inl f ↦ rw (f, e) ih | inr f ↦ rw (f, e) ih ]
      ]

  Single-keep :
      (q : Bucket L → Bool) (bs : List (ℕ × Bucket L)) → Single bs → Single (keep (λ p. q p.1) bs)
  Single-keep q [] h = tt
  Single-keep q ((i, b) ∷ bs) h = elim (Bool-cases (q b)) [
    | inl f ↦ rw f (find_bucket-keep q i bs h.1 ∙ ap (only_if q) h.0, Single-keep q bs h.1)
    | inr f ↦ rw f (Single-keep q bs h.1)
  ]

  find_bucket-sweep_idle :
      (now j : ℕ) (l : Limiter L)
      → Single l.buckets
      → find_bucket j (sweep_idle now l).buckets ≡ unless_idle now l (find_bucket j l.buckets)
  unfolding sweep_idle
  find_bucket-sweep_idle now j l s = elim (Bool-cases (ltb (now - l.last_sweep) idle_after)) [
    | inl e ↦ rw e (fresh (find_bucket j l.buckets) e)
    | inr e ↦ rw e (
        find_bucket-keep (λ b. not (ltb idle_after (now - b.last_used))) j l.buckets s
        ∙ swept (find_bucket j l.buckets) e)
  ]
    where
      fresh :
          (o : Option (Bucket L))
          → ltb (now - l.last_sweep) idle_after ≡ true
          → o ≡ unless_idle now l o
      fresh none e = refl
      fresh (some b) e = rw e refl

      swept :
          (o : Option (Bucket L))
          → ltb (now - l.last_sweep) idle_after ≡ false
          → only_if (λ b. not (ltb idle_after (now - b.last_used))) o ≡ unless_idle now l o
      swept none e = refl
      swept (some b) e = ground (arith, e)

  -- What a call answers on the customer's own bucket, if there is one, and what it makes of it.
  abbrev pub own_decision : Buckets L → ℕ → ℕ → ℕ → ℕ → Option (Bucket L) → Decision
  own_decision lib instances rps n now o =
      let (ok, delay, lim) = take_tokens lib now n (bucket_for lib instances rps now o).limiter in
      record { allowed = ok; limit = rps; remaining = lib.tokens_at now lim; retry_after = delay }

  abbrev pub own_bucket : Buckets L → ℕ → ℕ → ℕ → ℕ → Option (Bucket L) → Bucket L
  own_bucket lib instances rps n now o =
      let b = bucket_for lib instances rps now o in
      record b { limiter = (take_tokens lib now n b.limiter).2; last_used = now }

  -- A call leaves every other customer's bucket as it was, except that it drops one that was unused for
  -- more than ten minutes when the last sweep is ten minutes ago. The whole of its answer, and the
  -- bucket that it leaves the customer, depend on the customer's own bucket alone, which is a new one if there
  -- was none or if it was dropped.
  pub allow_isolated :
      (lib : Buckets L) (k rps n now : ℕ) (l : Limiter L)
      → Single l.buckets
      → ((j : ℕ)
          → (k == j) ≡ false
          → find_bucket j (allow lib k rps n now l).1.buckets
            ≡ unless_idle now l (find_bucket j l.buckets))
        × ((allow lib k rps n now l).0
            ≡ own_decision lib
                (sweep_idle now l).instances
                rps
                n
                now
                (unless_idle now l (find_bucket k l.buckets)))
        × (find_bucket k (allow lib k rps n now l).1.buckets
            ≡ some (
                own_bucket lib
                  (sweep_idle now l).instances
                  rps
                  n
                  now
                  (unless_idle now l (find_bucket k l.buckets))))
  unfolding allow
  allow_isolated lib k rps n now l s =
      let same : (k == k) ≡ true = ground arith in
      (
        (λ j d.
            find_bucket-put_bucket k j _ (sweep_idle now l).buckets
            ∙ rw d (find_bucket-sweep_idle now j l s)),
        ap (own_decision lib (sweep_idle now l).instances rps n now)
            (find_bucket-sweep_idle now k l s),
        find_bucket-put_bucket k k _ (sweep_idle now l).buckets
            ∙ rw same (
                ap (λ o. some (own_bucket lib (sweep_idle now l).instances rps n now o))
                  (find_bucket-sweep_idle now k l s)),
      )

-- Whatever the configured rate and the number of instances: a bucket holds a batch of the largest size.
pub burst_admits_batch : (instances rps : ℕ) → 500 ≤ burst_of instances rps
unfolding burst_of
burst_admits_batch instances rps = omega arith
