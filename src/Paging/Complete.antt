-- ===== src/Paging/Complete.antt =====
-- Reading page after page: nothing is skipped, nothing comes twice.
use sms_gateway.Common.{
  ℕ, zero, suc, ◌≤◌, ◌<◌, ◌≡◌, refl, sym, ap, subst, ◌∙◌, Bool, true, false, ◌&&◌, List, [], ◌∷◌,
  ◌++◌, keep, take, ltb, length, if◌then◌else◌, arith, All, All-imp, Bool-cases, inl, inr,
}
use native.Mathlib.Numerals.{add-one}
use sms_gateway.Paging.{insert_desc, sort_desc, before, page_of, last_id, read_pages}
use sms_gateway.Paging.Sorted.{Desc, Keyed, sort_desc-Desc, keep-Keyed, keep-Desc, keep-sort_desc}

abbrev drop : {A : Type 0} → ℕ → List A → List A
drop zero xs = xs
drop (suc n) [] = []
drop (suc n) (x ∷ xs) = drop n xs

take-drop : {A : Type 0} (n : ℕ) (xs : List A) → take n xs ++ drop n xs ≡ xs
take-drop zero xs = refl
take-drop (suc n) [] = refl
take-drop (suc n) (x ∷ xs) = ap (λ r. x ∷ r) (take-drop n xs)

take-take-suc : {A : Type 0} (n : ℕ) (xs : List A) → take n (take (suc n) xs) ≡ take n xs
take-take-suc zero xs = refl
take-take-suc (suc n) [] = refl
take-take-suc (suc n) (x ∷ xs) = ap (λ r. x ∷ r) (take-take-suc n xs)

more-take :
    {A : Type 0} (n : ℕ) (xs : List A) → ltb n (length (take (suc n) xs)) ≡ ltb n (length xs)
more-take n [] = refl
more-take zero (x ∷ xs) = ground arith
more-take (suc n) (x ∷ xs) = ground (arith, more-take n xs)

take_all : {A : Type 0} (n : ℕ) (xs : List A) → ltb n (length xs) ≡ false → take n xs ≡ xs
take_all zero [] h = refl
take_all zero (x ∷ xs) h = ground (arith, h)
take_all (suc n) [] h = refl
take_all (suc n) (x ∷ xs) h = ap (λ r. x ∷ r) (take_all n xs (ground (arith, h)))

take-short :
    {A : Type 0} (n : ℕ) (xs : List A) → ltb n (length xs) ≡ false → take (suc n) xs ≡ take n xs
take-short zero [] h = refl
take-short zero (x ∷ xs) h = ground (arith, h)
take-short (suc n) [] h = refl
take-short (suc n) (x ∷ xs) h = ap (λ r. x ∷ r) (take-short n xs (ground (arith, h)))

length-drop :
    {A : Type 0} (n : ℕ) (xs : List A) → n < length xs → length (drop (suc n) xs) < length xs
length-drop n [] h = omega (arith, h)
length-drop zero (x ∷ xs) h = omega arith
length-drop (suc n) (x ∷ xs) h = omega (arith, length-drop n xs (omega (arith, h)))

keep_and :
    {A : Type 0} (p q : A → Bool) (xs : List A) → keep (λ x. p x && q x) xs ≡ keep q (keep p xs)
keep_and p q [] = refl
keep_and p q (x ∷ xs) = elim (Bool-cases (p x)) [
  | inl e ↦ ground (arith, e, keep_and p q xs)
  | inr e ↦ ground (arith, e, keep_and p q xs)
]

keep_narrower :
    {A : Type 0} (p q : A → Bool) (xs : List A)
    → ((x : A) → q x ≡ true → p x ≡ true)
    → keep q (keep p xs) ≡ keep q xs
keep_narrower p q [] h = refl
keep_narrower p q (x ∷ xs) h = elim (Bool-cases (p x)) [
  | inl e ↦ ground (arith, e, keep_narrower p q xs h)
  | inr e ↦ ground (arith, e, h x, keep_narrower p q xs h)
]

keep_all : {A : Type 0} (q : A → Bool) (xs : List A) → All (λ x. q x ≡ true) xs → keep q xs ≡ xs
keep_all q [] h = refl
keep_all q (x ∷ xs) h = ground (arith, h.0, keep_all q xs h.1)

All-kept : {A : Type 0} (q : A → Bool) (xs : List A) → All (λ x. q x ≡ true) (keep q xs)
All-kept q [] = tt
All-kept q (x ∷ xs) = elim (Bool-cases (q x)) [
  | inl e ↦ rw e (e, All-kept q xs)
  | inr e ↦ rw e (All-kept q xs)
]

module _ {A : Type 0} (id_of : A → ℕ) where
  past_last :
      (n : ℕ) (x y : A) (ys : List A)
      → Desc id_of (x ∷ y ∷ ys)
      → before id_of (last_id id_of (take (suc n) (y ∷ ys))) x ≡ false
  past_last zero x y ys d = ground (arith, d.1, d.2.0)
  past_last (suc n) x y [] d = ground (arith, d.1, d.2.0)
  past_last (suc n) x y (z ∷ zs) d = past_last n x z zs (d.0, d.1.1, d.2.2)

  -- In sorted rows, those after the last row of a page are the rows that the page leaves.
  after_page :
      (n : ℕ) (xs : List A)
      → n < length xs
      → Desc id_of xs
      → keep (before id_of (last_id id_of (take (suc n) xs))) xs ≡ drop (suc n) xs
  after_page n [] h d = ground (arith, h)
  after_page zero (x ∷ ys) h d = ground (
    arith,
    keep_all (before id_of (id_of x)) ys (All-imp _ _ ys (λ z h. ground (arith, h)) d.1),
    d.0,
  )
  after_page (suc n) (x ∷ []) h d = ground (arith, h)
  after_page (suc n) (x ∷ y ∷ zs) h d =
      rw (past_last n x y zs d) (after_page n (y ∷ zs) (omega (arith, h)) d.2)

  -- The last row of a page lies behind the page's own start.
  last_behind :
      (n after : ℕ) (x y : A) (ys : List A)
      → Desc id_of (y ∷ ys)
      → All (λ z. before id_of after z ≡ true) (y ∷ ys)
      → before id_of (last_id id_of (take (suc n) (y ∷ ys))) x ≡ true
      → before id_of after x ≡ true
  last_behind zero after x y ys d h e = ground (arith, d.0, h.0, e)
  last_behind (suc n) after x y [] d h e = ground (arith, d.0, h.0, e)
  last_behind (suc n) after x y (z ∷ zs) d h e = last_behind n after x z zs d.2 h.1 e

  module _ (p : A → Bool) (rows : List A) (u : Keyed id_of rows) where
    -- The rows that a reader who stands at `after` has still to see.
    abbrev ahead : ℕ → List A
    ahead after = keep (before id_of after) (sort_desc id_of (keep p rows))

    selected :
        (after : ℕ) → sort_desc id_of (keep (λ x. p x && before id_of after x) rows) ≡ ahead after
    selected after =
        ap (sort_desc id_of) (keep_and p (before id_of after) rows)
        ∙ sym (keep-sort_desc id_of (before id_of after) (keep p rows) (keep-Keyed id_of p rows u))

    ahead-Desc : (after : ℕ) → Desc id_of (ahead after)
    ahead-Desc after =
        keep-Desc id_of _ _ (sort_desc-Desc id_of (keep p rows) (keep-Keyed id_of p rows u))

    ahead_next :
        (n after : ℕ)
        → n < length (ahead after)
        → ahead (last_id id_of (take (suc n) (ahead after))) ≡ drop (suc n) (ahead after)
    ahead_next n after h =
        sym (narrow (ahead after) refl (ahead-Desc after) h)
        ∙ after_page n (ahead after) h (ahead-Desc after)
      where
        narrow :
            (xs : List A)
            → ahead after ≡ xs
            → Desc id_of xs
            → n < length xs
            → keep (before id_of (last_id id_of (take (suc n) xs))) (ahead after)
              ≡ ahead (last_id id_of (take (suc n) xs))
        narrow [] e d l = ground (arith, l)
        narrow (y ∷ ys) e d l =
            keep_narrower (before id_of after)
              (before id_of (last_id id_of (take (suc n) (y ∷ ys)))) (sort_desc id_of (keep p rows))
              (λ x b.
                last_behind n after x y ys d
                  (subst (All (λ z. before id_of after z ≡ true)) e
                    (All-kept (before id_of after) (sort_desc id_of (keep p rows))))
                  b)

    page_of_lem :
        (limit after : ℕ)
        → page_of id_of p after limit rows
          ≡ (take limit (ahead after), ltb limit (length (ahead after)))
    unfolding page_of
    page_of_lem limit after =
        rw (selected after, add-one) (rw (short, more-take limit (ahead after)) refl)
      where
        short :
            (if ltb limit (length (take (suc limit) (ahead after)))
              then take limit (take (suc limit) (ahead after))
              else take (suc limit) (ahead after))
            ≡ take limit (ahead after)
        short = elim (Bool-cases (ltb limit (length (ahead after)))) [
          | inl e ↦ rw (more-take limit (ahead after)) (rw e (take-take-suc limit (ahead after)))
          | inr e ↦ rw (more-take limit (ahead after)) (rw e (take-short limit (ahead after) e))
        ]

    read_pages-ahead :
        (fetch : ℕ → List A × Bool) (n : ℕ)
        → ((after : ℕ) → fetch after ≡ page_of id_of p after (suc n) rows)
        → (fuel after : ℕ) → length (ahead after) < fuel
        → read_pages id_of fetch fuel after ≡ ahead after
    unfolding read_pages
    read_pages-ahead fetch n f zero after h = ground (arith, h)
    read_pages-ahead fetch n f (suc fuel) after h = rw (f after) (
        rw (page_of_lem (suc n) after) (elim (Bool-cases (ltb (suc n) (length (ahead after)))) [
          | inl e ↦
              let l : suc n < length (ahead after) = ground (arith, e) in
              let next : ahead (last_id id_of (take (suc n) (ahead after)))
                  ≡ drop (suc n) (ahead after) =
                ahead_next n after (omega (arith, l)) in
              let fewer : length (drop (suc n) (ahead after)) < fuel =
                omega (arith, length-drop n (ahead after) (omega (arith, l)), h) in
              rw e (
                ap (λ r. take (suc n) (ahead after) ++ r)
                  (read_pages-ahead fetch n f fuel (last_id id_of (take (suc n) (ahead after)))
                      (rw next fewer)
                    ∙ next)
                ∙ take-drop (suc n) (ahead after))
          | inr e ↦ rw e (take_all (suc n) (ahead after) e)
        ]))

    all_ahead : (xs : List A) → keep (before id_of 0) xs ≡ xs
    all_ahead [] = refl
    all_ahead (x ∷ xs) = ground (arith, all_ahead xs)

    length-insert_desc : (x : A) (xs : List A) → length (insert_desc id_of x xs) ≡ suc (length xs)
    unfolding insert_desc
    length-insert_desc x [] = refl
    length-insert_desc x (y ∷ ys) = ground (arith, length-insert_desc x ys)

    length-sort_desc : (xs : List A) → length (sort_desc id_of xs) ≡ length xs
    unfolding sort_desc
    length-sort_desc [] = refl
    length-sort_desc (x ∷ xs) =
        length-insert_desc x (sort_desc id_of xs) ∙ ap (λ n. suc n) (length-sort_desc xs)

    length-keep : (xs : List A) → length (keep p xs) ≤ length xs
    length-keep [] = omega arith
    length-keep (x ∷ xs) = ground (arith, length-keep xs)

    -- A client that starts at the first page and asks for each further page from the last row of the
    -- one before, for more pages than there are rows at most: it gets every selected row once, in
    -- descending order of the ids.
    pub read_pages_complete :
        (fetch : ℕ → List A × Bool) (n : ℕ)
        → ((after : ℕ) → fetch after ≡ page_of id_of p after (suc n) rows)
        → (fuel : ℕ) → length rows < fuel
        → read_pages id_of fetch fuel 0 ≡ sort_desc id_of (keep p rows)
    read_pages_complete fetch n f fuel h =
        let e : ahead 0 ≡ sort_desc id_of (keep p rows) =
          all_ahead (sort_desc id_of (keep p rows)) in
        read_pages-ahead fetch n f fuel 0
          (rw e (omega (arith, length-sort_desc (keep p rows), length-keep rows, h)))
        ∙ e
