-- ===== src/Store/Migrate/Again.antt =====
-- What `Up` and `Down` leave.
use sms_gateway.Common.{
  ℕ, ◌≡◌, inl, inr, refl, Bool, true, false, Option, none, some, List, [], ◌∷◌, if◌then◌else◌,
  arith, All, Bool-cases,
}
use sms_gateway.Common.Text.{Text}
use sms_gateway.Store.Migrate.{
  Migration, Schema, applied_at, is_applied, MigrateError, record_version, apply_migration,
  after_apply, up_from, up,
}

module _ {S : Type 0} (exec : Text → S → Option S) (now : ℕ) where
  -- The versions that were applied stay.
  Grows : List (ℕ × ℕ) → List (ℕ × ℕ) → Type 0
  Grows a b = (v : ℕ) → is_applied v a ≡ true → is_applied v b ≡ true

  -- After a run without error every migration is recorded.
  Complete : List Migration → Schema S → List Migration × Option MigrateError × Schema S → Type 0
  Complete ms st r =
      Grows st.applied r.2.applied
      × (r.1 ≡ none → All (λ m. is_applied m.version r.2.applied ≡ true) ms)

  Applied : Migration → Schema S → Option (Schema S) → Type 0
  Applied m st none = Unit
  Applied m st (some st') = Grows st.applied st'.applied × (is_applied m.version st'.applied ≡ true)

  apply_migration-Applied :
      (m : Migration) (st : Schema S) → Applied m st (apply_migration exec now m st)
  unfolding apply_migration is_applied applied_at Grows Applied
  apply_migration-Applied m st = go (exec m.up_script st.tables)
    where
      go : (o : Option S) → Applied m st (record_version exec now m o st)
      go none = tt
      go (some s) = elim (Bool-cases (is_applied m.version st.applied)) [
        | inl e ↦ rw (e, record_version) tt
        | inr e ↦ rw (e, record_version) ((λ v h. ground (arith, h)), ground arith)
      ]

  -- A migration that was skipped.
  Complete-skip :
      (m : Migration) (ms : List Migration) (st : Schema S)
      (r : List Migration × Option MigrateError × Schema S)
      → is_applied m.version st.applied ≡ true
      → Complete ms st r
      → Complete (m ∷ ms) st r
  unfolding Complete Grows
  Complete-skip m ms st r e c = (c.0, λ n. (c.0 m.version e, c.1 n))

  -- A migration that was applied, or failed.
  Complete-apply :
      (m : Migration) (ms : List Migration) (st : Schema S) (o : Option (Schema S))
      (next : Schema S → List Migration × Option MigrateError × Schema S)
      → Applied m st o
      → ((st' : Schema S) → Grows st.applied st'.applied → Complete ms st' (next st'))
      → Complete (m ∷ ms) st (after_apply exec now m st o next)
  unfolding Complete Grows Applied
  Complete-apply m ms st none next a k = ((λ v h. h), λ n. cc)
  Complete-apply m ms st (some st') next a k =
      let c = k st' a.0 in ((λ v h. c.0 v (a.0 v h)), λ n. (c.0 m.version a.1, c.1 n))

  choose :
      {A : Type 0} (P : A → Type 0) (b : Bool) (x y : A)
      → (b ≡ true → P x)
      → (b ≡ false → P y)
      → P (if b then x else y)
  choose P true x y f g = f refl
  choose P false x y f g = g refl

  Grows-trans : (a b c : List (ℕ × ℕ)) → Grows a b → Grows b c → Grows a c
  unfolding Grows
  Grows-trans a b c f g v h = g v (f v h)

  grown : (a b : List (ℕ × ℕ)) (v : ℕ) → Grows a b → is_applied v a ≡ true → is_applied v b ≡ true
  unfolding Grows
  grown a b v f h = f v h

  Complete-nil : (st : Schema S) → Complete [] st ([], none, st)
  unfolding Complete Grows
  Complete-nil st = ((λ v h. h), λ n. tt)

  up_from-Complete :
      (done : List (ℕ × ℕ)) (ms : List Migration) (st : Schema S)
      → Grows done st.applied
      → Complete ms st (up_from exec now done ms st)
  unfolding up_from
  up_from-Complete done [] st g = Complete-nil st
  up_from-Complete done (m ∷ ms) st g =
      choose (Complete (m ∷ ms) st) (is_applied m.version done) (up_from exec now done ms st)
        (after_apply exec now m st (apply_migration exec now m st)
          (λ st'. up_from exec now done ms st'))
        (λ e.
          Complete-skip m ms st _ (grown done st.applied m.version g e)
            (up_from-Complete done ms st g))
        (λ e.
          Complete-apply m ms st (apply_migration exec now m st)
            (λ st'. up_from exec now done ms st') (apply_migration-Applied m st)
            (λ st' g'. up_from-Complete done ms st' (Grows-trans done st.applied st'.applied g g')))

  all_skipped :
      (done : List (ℕ × ℕ)) (ms : List Migration) (st : Schema S)
      → All (λ m. is_applied m.version done ≡ true) ms
      → up_from exec now done ms st ≡ ([], none, st)
  unfolding up_from
  all_skipped done [] st h = refl
  all_skipped done (m ∷ ms) st h = rw h.0 (all_skipped done ms st h.1)

  up-Complete : (ms : List Migration) (st : Schema S) → Complete ms st (up exec now ms st)
  unfolding up
  up-Complete ms st = up_from-Complete st.applied ms st (unfold Grows in λ v h. h)

  -- When `Up` ends without an error, every migration is recorded as applied, with those that were before;
  -- and running `Up` again applies nothing and changes nothing.
  pub up_again :
      (ms : List Migration) (st : Schema S)
      → (up exec now ms st).1 ≡ none
      → All (λ m. is_applied m.version (up exec now ms st).2.applied ≡ true) ms
        × ((v : ℕ)
            → is_applied v st.applied ≡ true
            → is_applied v (up exec now ms st).2.applied ≡ true)
        × (up exec now ms (up exec now ms st).2 ≡ ([], none, (up exec now ms st).2))
  unfolding Complete Grows
  up_again ms st h =
      let c = up-Complete ms st in (c.1 h, c.0, again ms (up exec now ms st).2 (c.1 h))
    where
      again :
          (ms : List Migration) (st : Schema S)
          → All (λ m. is_applied m.version st.applied ≡ true) ms
          → up exec now ms st ≡ ([], none, st)
      again ms st h = unfold up in all_skipped st.applied ms st h
