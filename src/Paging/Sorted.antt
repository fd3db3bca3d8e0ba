-- ===== src/Paging/Sorted.antt =====
-- Sorting by id in descending order, and selecting from sorted rows.
use sms_gateway.Common.{
  ℕ, ◌≤◌, ◌<◌, ◌≡◌, ◌≢◌, refl, Bool, List, [], ◌∷◌, keep, leb, if◌then◌else◌, arith, All, All-imp,
  Bool-cases, inl, inr,
}
use sms_gateway.Paging.{insert_desc, sort_desc}

module _ {A : Type 0} (id_of : A → ℕ) where
  abbrev pub Desc : List A → Type 0
  Desc [] = Unit
  Desc (x ∷ xs) = (0 < id_of x) × All (λ y. id_of y < id_of x) xs × Desc xs

  -- No two rows share an id, and none has the nil id.
  abbrev pub Keyed : List A → Type 0
  Keyed [] = Unit
  Keyed (x ∷ xs) = (0 < id_of x) × All (λ y. id_of y ≢ id_of x) xs × Keyed xs

  All-insert_desc :
      (P : A → Type 0) (x : A) (ys : List A) → P x → All P ys → All P (insert_desc id_of x ys)
  unfolding insert_desc
  All-insert_desc P x [] p h = (p, tt)
  All-insert_desc P x (y ∷ ys) p h = elim (Bool-cases (leb (id_of y) (id_of x))) [
    | inl e ↦ rw e (p, h)
    | inr e ↦ rw e (h.0, All-insert_desc P x ys p h.1)
  ]

  All-sort_desc : (P : A → Type 0) (xs : List A) → All P xs → All P (sort_desc id_of xs)
  unfolding sort_desc
  All-sort_desc P [] h = tt
  All-sort_desc P (x ∷ xs) h = All-insert_desc P x (sort_desc id_of xs) h.0 (All-sort_desc P xs h.1)

  pub All-keep : (P : A → Type 0) (q : A → Bool) (xs : List A) → All P xs → All P (keep q xs)
  All-keep P q [] h = tt
  All-keep P q (x ∷ xs) h = elim (Bool-cases (q x)) [
    | inl e ↦ rw e (h.0, All-keep P q xs h.1)
    | inr e ↦ rw e (All-keep P q xs h.1)
  ]

  insert_desc-Desc :
      (x : A) (ys : List A)
      → 0 < id_of x
      → All (λ y. id_of y ≢ id_of x) ys
      → Desc ys
      → Desc (insert_desc id_of x ys)
  unfolding insert_desc
  insert_desc-Desc x [] l n d = (l, tt, tt)
  insert_desc-Desc x (y ∷ ys) l n d = elim (Bool-cases (leb (id_of y) (id_of x))) [
    | inl e ↦
        let below : id_of y < id_of x = ground (arith, e, n.0) in
        rw e (l, (below, All-imp _ _ ys (λ z h. omega (arith, h, below)) d.1), d)
    | inr e ↦
        let above : id_of x < id_of y = ground (arith, e) in
        rw e (
          d.0,
          All-insert_desc (λ z. id_of z < id_of y) x ys above d.1,
          insert_desc-Desc x ys l n.1 d.2,
        )
  ]

  pub sort_desc-Desc : (xs : List A) → Keyed xs → Desc (sort_desc id_of xs)
  unfolding sort_desc
  sort_desc-Desc [] u = tt
  sort_desc-Desc (x ∷ xs) u =
      insert_desc-Desc x (sort_desc id_of xs) u.0 (All-sort_desc _ xs u.1) (sort_desc-Desc xs u.2)

  pub keep-Keyed : (q : A → Bool) (xs : List A) → Keyed xs → Keyed (keep q xs)
  keep-Keyed q [] u = tt
  keep-Keyed q (x ∷ xs) u = elim (Bool-cases (q x)) [
    | inl e ↦ rw e (u.0, All-keep _ q xs u.1, keep-Keyed q xs u.2)
    | inr e ↦ rw e (keep-Keyed q xs u.2)
  ]

  pub keep-Desc : (q : A → Bool) (xs : List A) → Desc xs → Desc (keep q xs)
  keep-Desc q [] u = tt
  keep-Desc q (x ∷ xs) u = elim (Bool-cases (q x)) [
    | inl e ↦ rw e (u.0, All-keep _ q xs u.1, keep-Desc q xs u.2)
    | inr e ↦ rw e (keep-Desc q xs u.2)
  ]

  insert_front :
      (x : A) (ys : List A) → All (λ y. id_of y ≤ id_of x) ys → insert_desc id_of x ys ≡ x ∷ ys
  unfolding insert_desc
  insert_front x [] h = refl
  insert_front x (y ∷ ys) h = ground (arith, h.0)

  keep-insert_desc :
      (q : A → Bool) (x : A) (ys : List A)
      → Desc ys
      → keep q (insert_desc id_of x ys)
        ≡ (if q x then insert_desc id_of x (keep q ys) else keep q ys)
  unfolding insert_desc
  keep-insert_desc q x [] d = ground arith
  keep-insert_desc q x (y ∷ ys) d = elim (Bool-cases (leb (id_of y) (id_of x))) [
    | inl e ↦
        let low : All (λ z. id_of z ≤ id_of x) ys =
          All-imp _ _ ys (λ z h. ground (arith, h, e)) d.1 in
        ground (arith, e, insert_front x (keep q ys) (All-keep _ q ys low))
    | inr e ↦ ground (arith, e, keep-insert_desc q x ys d.2)
  ]

  -- Rows may be selected before or after they are sorted.
  pub keep-sort_desc :
      (q : A → Bool) (xs : List A)
      → Keyed xs
      → keep q (sort_desc id_of xs) ≡ sort_desc id_of (keep q xs)
  unfolding sort_desc
  keep-sort_desc q [] u = refl
  keep-sort_desc q (x ∷ xs) u = ground (
    arith,
    keep-insert_desc q x (sort_desc id_of xs) (sort_desc-Desc xs u.2),
    keep-sort_desc q xs u.2,
  )
