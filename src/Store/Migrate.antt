-- ===== src/Store/Migrate.antt =====
-- The migration runner (internal/store/migrate.go), while it holds the advisory lock. `exec` runs the text
-- of a script: `none` is its error. The tables besides `schema_migrations` are any state.
pub mod Again
use sms_gateway.Common.{
  ℕ, Bool, true, false, not, Option, none, some, List, [], ◌∷◌, ◌++◌, any, keep, ◌==◌,
  if◌then◌else◌,
}
use sms_gateway.Common.Text.{Text}

pub record Migration : Type 0 where
  pub version : ℕ
  pub name : Text
  pub up_script : Text
  pub down_script : Text

-- `done`: the versions of `schema_migrations`, with the times at which they were applied.
pub record Schema (S : Type 0) : Type 0 where
  pub tables : S
  pub applied : List (ℕ × ℕ)

unfoldable pub applied_at : ℕ → List (ℕ × ℕ) → Option ℕ
applied_at v [] = none
applied_at v ((w, t) ∷ rest) = if w == v then some t else applied_at v rest

abbrev pub is_some : {A : Type 0} → Option A → Bool
is_some none = false
is_some (some a) = true

unfoldable pub is_applied : ℕ → List (ℕ × ℕ) → Bool
is_applied v done = is_some (applied_at v done)

pub data MigrateError : Type 0 where
  script_failed already_recorded no_down_section : ℕ → MigrateError

module _ {S : Type 0} (exec : Text → S → Option S) (now : ℕ) where
  -- INSERT INTO schema_migrations, whose key is the version.
  abbrev pub record_version : Migration → Option S → Schema S → Option (Schema S)
  record_version m none st = none
  record_version m (some s) st =
      if is_applied m.version st.applied
      then none
      else some (record { tables = s; applied = (m.version, now) ∷ st.applied })

  -- The transaction of one migration.
  unfoldable pub apply_migration : Migration → Schema S → Option (Schema S)
  unfolding is_applied
  apply_migration m st = record_version m (exec m.up_script st.tables) st

  abbrev pub after_apply :
      Migration
      → Schema S
      → Option (Schema S)
      → (Schema S → List Migration × Option MigrateError × Schema S)
      → List Migration × Option MigrateError × Schema S
  after_apply m st none next = ([], some (script_failed m.version), st)
  after_apply m st (some st') next = let (ms, e, st'') = next st' in (m ∷ ms, e, st'')

  -- The loop of `Up`; `done` was read before it.
  unfoldable pub up_from :
      List (ℕ × ℕ) → List Migration → Schema S → List Migration × Option MigrateError × Schema S
  unfolding apply_migration
  up_from done [] st = ([], none, st)
  up_from done (m ∷ ms) st =
      let skipped = up_from done ms st in
      if is_applied m.version done
      then skipped
      else after_apply m st (apply_migration m st) (λ st'. up_from done ms st')

  -- `Up`: what it applied, its error, and what it leaves.
  unfoldable pub up : List Migration → Schema S → List Migration × Option MigrateError × Schema S
  unfolding up_from
  up ms st = up_from st.applied ms st

  -- The migrations from the last one on.
  abbrev pub last_applied : List (ℕ × ℕ) → List Migration → Option Migration
  last_applied done [] = none
  last_applied done (m ∷ ms) = elim (last_applied done ms) [
    | none ↦ if is_applied m.version done then some m else none
    | some l ↦ some l
  ]

  abbrev pub is_empty_text : Text → Bool
  is_empty_text [] = true
  is_empty_text (c ∷ s) = false

  -- The transaction of `Down`.
  abbrev pub revert :
      Migration → Option S → Schema S → Option Migration × Option MigrateError × Schema S
  revert m none st = (none, some (script_failed m.version), st)
  revert m (some s) st =
      (some m, none, record { tables = s; applied = keep (λ p. not (p.0 == m.version)) st.applied })

  abbrev pub down_one :
      Option Migration → Schema S → Option Migration × Option MigrateError × Schema S
  down_one none st = (none, none, st)
  down_one (some m) st =
      if is_empty_text m.down_script
      then (none, some (no_down_section m.version), st)
      else revert m (exec m.down_script st.tables) st

  -- `Down`
  unfoldable pub down :
      List Migration → Schema S → Option Migration × Option MigrateError × Schema S
  down ms st = down_one (last_applied st.applied ms) st

-- `Status`
unfoldable pub status : {S : Type 0} → List Migration → Schema S → List (Migration × Option ℕ)
status [] st = []
status (m ∷ ms) st = (m, applied_at m.version st.applied) ∷ status ms st
