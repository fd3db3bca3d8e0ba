-- ===== src/Store/Tx.antt =====
-- Transactions (internal/store/tx.go): a statement sequence that returns an error is rolled back.
use sms_gateway.Common.{◌≡◌, refl, Bool, true, false, if◌then◌else◌}
use sms_gateway.Store.Tables.{Db}

-- The errors that the modelled operations return.
pub data Error : Type 0 where
  -- raised by the database: a constraint of the schema, or a BIGINT out of range
  unique_violation foreign_key_violation check_violation out_of_range : Error
  -- the domain errors
  insufficient_credits charge_conflict customer_not_found client_ref_taken : Error

pub data Result (A : Type 0) : Type 0 where
  ok : A → Result A
  err : Error → Result A

-- A function that runs statements inside a transaction.
abbrev pub Tx : Type 0 → Type 0
Tx A = Db → Result (A × Db)

infixl 5 ◌>>=◌ ◌>>◌
abbrev pub ◌>>=◌ : {A B : Type 0} → Tx A → (A → Tx B) → Tx B
◌>>=◌ m f d = elim (m d) [ ok (a, d') ↦ f a d' | err e ↦ err e ]

abbrev pub ◌>>◌ : {B : Type 0} → Tx (Unit {0}) → Tx B → Tx B
m >> k = m >>= λ _. k

module _ {A : Type 0} where
  abbrev pub pure : A → Tx A
  pure a d = ok (a, d)

  abbrev pub throw : Error → Tx A
  throw e d = err e

  abbrev pub gets : (Db → A) → Tx A
  gets f d = ok (f d, d)

abbrev pub modify : (Db → Db) → Tx (Unit {0})
modify f d = ok (tt, f d)

abbrev pub throw_if : Bool → Error → Tx (Unit {0})
throw_if c e d = if c then err e else ok (tt, d)

-- `WithTx`: the changes are kept exactly if `fn` returns no error.
abbrev pub settle : {A : Type 0} → Db → Result (A × Db) → Result A × Db
settle d (ok (a, d')) = (ok a, d')
settle d (err e) = (err e, d)

unfoldable pub with_tx : {A : Type 0} → Tx A → Db → Result A × Db
with_tx fn d = settle d (fn d)

-- What holds of the result and the tables if the run returned no error.
abbrev pub After : {A : Type 0} → (A → Db → Type 0) → Result (A × Db) → Type 0
After P (ok (a, d)) = P a d
After P (err e) = Unit

pub After-bind :
    {A B : Type 0} (P : A → Db → Type 0) (Q : B → Db → Type 0) (m : Tx A) (f : A → Tx B) (d : Db)
    → After P (m d)
    → ((a : A) (d' : Db) → P a d' → After Q (f a d'))
    → After Q ((m >>= f) d)
After-bind {A} {B} P Q m f d h k = go (m d) h
  where
    go :
        (r : Result (A × Db)) → After P r → After Q (elim r [ ok (a, d') ↦ f a d' | err e ↦ err e ])
    go (ok (a, d')) p = k a d' p
    go (err e) p = tt

pub After-imp :
    {A : Type 0} (P Q : A → Db → Type 0) (r : Result (A × Db))
    → ((a : A) (d : Db) → P a d → Q a d)
    → After P r
    → After Q r
After-imp P Q (ok (a, d)) f h = f a d h
After-imp P Q (err e) f h = tt

pub After-throw_if :
    {B : Type 0} (Q : B → Db → Type 0) (c : Bool) (e : Error) (k : Tx B) (d : Db)
    → (c ≡ false → After Q (k d))
    → After Q ((throw_if c e >> k) d)
After-throw_if Q true e k d h = tt
After-throw_if Q false e k d h = h refl

-- What holds after every successful run, and before it, holds of the tables that `with_tx` leaves.
pub with_tx_lem :
    {A : Type 0} (P : Db → Type 0) (fn : Tx A) (d : Db)
    → P d
    → After (λ _ d'. P d') (fn d)
    → P (with_tx fn d).1
unfolding with_tx
with_tx_lem {A} P fn d h k = go (fn d) k
  where
    go : (r : Result (A × Db)) → After (λ _ d'. P d') r → P (settle d r).1
    go (ok (a, d')) p = p
    go (err e) p = h

-- What holds of the error of a run, or of its result and tables.
abbrev pub Ends : {A : Type 0} → (Error → Type 0) → (A → Db → Type 0) → Result (A × Db) → Type 0
Ends E P (ok (a, d)) = P a d
Ends E P (err e) = E e

pub Ends-bind :
    {A B : Type 0} (E : Error → Type 0) (P : A → Db → Type 0) (Q : B → Db → Type 0) (m : Tx A)
    (f : A → Tx B) (d : Db)
    → Ends E P (m d)
    → ((a : A) (d' : Db) → P a d' → Ends E Q (f a d'))
    → Ends E Q ((m >>= f) d)
Ends-bind {A} {B} E P Q m f d h k = go (m d) h
  where
    go :
        (r : Result (A × Db))
        → Ends E P r
        → Ends E Q (elim r [ ok (a, d') ↦ f a d' | err e ↦ err e ])
    go (ok (a, d')) p = k a d' p
    go (err e) p = p

pub Ends-throw_if :
    {B : Type 0} (E : Error → Type 0) (Q : B → Db → Type 0) (c : Bool) (e : Error) (k : Tx B)
    (d : Db)
    → (c ≡ true → E e)
    → (c ≡ false → Ends E Q (k d))
    → Ends E Q ((throw_if c e >> k) d)
Ends-throw_if E Q true e k d g h = g refl
Ends-throw_if E Q false e k d g h = h refl
