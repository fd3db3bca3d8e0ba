-- ===== src/Accept/Submit.antt =====
-- internal/message/accept.go: Accept and AcceptBatch as a whole, on the requests of a customer.
use sms_gateway.Common.{
  ℕ, ◌≤◌, ◌≡◌, refl, ap, ◌∙◌, Bool, true, false, ◌&&◌, ◌||◌, not, Option, none, some, List, [], ◌∷◌,
  any, ◌==◌, if◌then◌else◌, arith, All, All-imp,
}
use sms_gateway.Common.Text.{Text, text_eq}
use sms_gateway.Message.{Message}
use sms_gateway.Store.Tables.{Db, null_text, is_text, is_null}
use sms_gateway.Store.Tx.{
  unique_violation, foreign_key_violation, check_violation, out_of_range, insufficient_credits,
  charge_conflict, customer_not_found, client_ref_taken, Result, ok, err, with_tx, settle, Ends,
}
use sms_gateway.Invariant.{Inv}
use sms_gateway.Invariant.Update.{Inv-later}
use sms_gateway.Accept.{Item, AcceptConfig, Accepted, has_ref, insert}
use sms_gateway.Accept.Replay.{
  carries, existing_of, resolve_with, resolve_existing, decide, ReplayProgress, Conflict,
  Resolution, not_found, replayed, conflicts_at,
}
use sms_gateway.Accept.Attempts.{
  AcceptResult, recorded, resolved, refused_with, unsettled, after_resolve, after_insert, accept,
  attempts, accept-Inv,
}
use sms_gateway.Accept.Settles.{Blames, RefsDiffer, other_ref, taken, insert-Blames}
use sms_gateway.Accept.Validate.{FieldError, Request, Prepared, prepared, invalid, prepare}
use sms_gateway.Accept.Validate.Laws.{unseen, see, refs_differ, and_left, and_right}
use sms_gateway.Accept.Validate.Priced.{Matches, prepare-Matches, prepare-refs_differ}

pub data Submitted : Type 0 where
  done : AcceptResult → Submitted
  -- *ValidationError
  invalid_request : List FieldError → Submitted

module _ (now : ℕ) (cfg : AcceptConfig) (hash : ℕ → ℕ) (itoa : ℕ → Text) (new_id new_tx : ℕ → ℕ → ℕ)
    (customer : ℕ) where
  abbrev pub after_prepare : Prepared → Db → Submitted × Db
  after_prepare (prepared items) d =
      let (r, d') = accept now cfg hash itoa new_id new_tx customer items d in (done r, d')
  after_prepare (invalid es) d = (invalid_request es, d)

  -- `AcceptBatch`, and `Accept` for `batch = false` and one request.
  unfoldable pub submit : Bool → List Request → Db → Submitted × Db
  submit batch reqs d = after_prepare (prepare cfg itoa batch reqs) d

not_both : (b : Bool) → b ≡ true → b ≡ false → ⊥
not_both b h k = cc

taken-cons :
    (k : ℕ) (m : Message) (ms : List Message) (x : Item)
    → taken k (m ∷ ms) x ≡ ((m.customer_id == k && carries m x) || taken k ms x)
taken-cons k m ms x = go x.ref
  where
    go :
        (s : Text)
        → has_ref k (null_text s) (m ∷ ms) ≡ (
            (m.customer_id == k && (not (is_null (null_text s)) && is_text m.client_ref s))
            || has_ref k (null_text s) ms)
    go [] = ground arith
    go (c ∷ s) = ground arith

any-taken-cons :
    (k : ℕ) (m : Message) (ms : List Message) (xs : List Item)
    → any (taken k (m ∷ ms)) xs
      ≡ ((m.customer_id == k && any (carries m) xs) || any (taken k ms) xs)
any-taken-cons k m ms [] = ground arith
any-taken-cons k m ms (x ∷ xs) =
    rw (taken-cons k m ms x)
      (mix (m.customer_id == k) (carries m x) (taken k ms x) _ _ _ (any-taken-cons k m ms xs))
  where
    mix :
        (c a t u a' t' : Bool)
        → u ≡ ((c && a') || t')
        → (if (c && a) || t then true else u)
          ≡ ((c && (if a then true else a')) || (if t then true else t'))
    mix c a t u a' t' h = ground (arith, h)

any_nothing : (k : ℕ) (xs : List Item) → any (taken k []) xs ≡ false
any_nothing k [] = refl
any_nothing k (x ∷ xs) = rw (nothing x.ref) (any_nothing k xs)
  where
    nothing : (s : Text) → has_ref k (null_text s) [] ≡ false
    nothing [] = refl
    nothing (c ∷ s) = refl

not_kept :
    {A : Type 0} (x : A) (b : Bool) (rest : List A)
    → (if b then x ∷ rest else rest) ≡ []
    → (b ≡ false) × (rest ≡ [])
not_kept x true rest h = cc
not_kept x false rest h = (refl, h)

-- If no stored message is found for the items, no client_ref was taken.
untaken :
    (k : ℕ) (items : List Item) (ms : List Message)
    → existing_of k items ms ≡ []
    → any (taken k ms) items ≡ false
unfolding existing_of
untaken k items [] h = any_nothing k items
untaken k items (m ∷ ms) h =
    let e = not_kept m (m.customer_id == k && any (carries m) items) (existing_of k items ms) h in
    any-taken-cons k m ms items ∙ rw (e.0) (untaken k items ms e.1)

abbrev is_found : Resolution → Bool
is_found not_found = false
is_found (replayed r) = true
is_found (conflicts_at cs) = true

is_found-decide : (p : ReplayProgress) → is_found (decide p) ≡ true
is_found-decide p = go p.replay p.conflicts
  where
    go :
        (o : Option Accepted) (cs : List Conflict)
        → is_found (decide (record { replay = o; conflicts = cs })) ≡ true
    go none cs = refl
    go (some r) cs = refl

-- A client_ref that was taken is found by `resolve_existing`.
found_taken :
    (k : ℕ) (items : List Item) (ms : List Message)
    → any (taken k ms) items ≡ true
    → is_found (resolve_existing k items ms) ≡ true
unfolding resolve_existing
found_taken k items ms t = go (existing_of k items ms) refl
  where
    go : (ex : List Message) → existing_of k items ms ≡ ex → is_found (resolve_with ex items) ≡ true
    go [] e = absurd (not_both (any (taken k ms) items) t (untaken k items ms e))
    go (m ∷ rest) e = is_found-decide _

abbrev pub is_settled : AcceptResult → Bool
is_settled unsettled = false
is_settled (recorded a) = true
is_settled (resolved r) = true
is_settled (refused_with e) = true

resolve_settled :
    (r : Resolution) (d : Db) (again : AcceptResult × Db)
    → is_found r ≡ true
    → is_settled (after_resolve r d again).0 ≡ true
resolve_settled not_found d again h = cc
resolve_settled (replayed r) d again h = refl
resolve_settled (conflicts_at cs) d again h = refl

insert_settled :
    (k : ℕ) (xs : List Item) (d : Db) (again : AcceptResult × Db) (r : Result (Accepted × Db))
    → Ends (Blames (any (taken k d.messages) xs ≡ true)) (λ _ d'. Unit) r
    → is_settled (after_insert k xs (settle d r).0 (settle d r).1 again).0 ≡ true
insert_settled k xs d again (ok (a, d')) h = refl
insert_settled k xs d again (err unique_violation) h = refl
insert_settled k xs d again (err foreign_key_violation) h = refl
insert_settled k xs d again (err check_violation) h = refl
insert_settled k xs d again (err out_of_range) h = refl
insert_settled k xs d again (err insufficient_credits) h = refl
insert_settled k xs d again (err charge_conflict) h = refl
insert_settled k xs d again (err customer_not_found) h = refl
insert_settled k xs d again (err client_ref_taken) h =
    resolve_settled (resolve_existing k xs d.messages) d again (found_taken k xs d.messages h)

accept_settles :
    (now : ℕ) (cfg : AcceptConfig) (hash : ℕ → ℕ) (itoa : ℕ → Text) (new_id new_tx : ℕ → ℕ → ℕ)
    (k : ℕ) (xs : List Item) (d : Db)
    → RefsDiffer xs
    → is_settled (accept now cfg hash itoa new_id new_tx k xs d).0 ≡ true
unfolding accept attempts with_tx
accept_settles now cfg hash itoa new_id new_tx k xs d r =
    insert_settled k xs d _ (insert now cfg hash itoa (new_id 2) (new_tx 2) k xs d)
      (insert-Blames now cfg hash itoa (new_id 2) (new_tx 2) k xs d r)

-- The client_ref of a later item is not among those seen.
abbrev Clear : List Text → Item → Type 0
Clear seen y = (is_null (null_text y.ref) || not (any (λ s. text_eq s y.ref) seen)) ≡ true

clear_of :
    (seen : List Text) (ref : Option Text) (s : Text)
    → null_text s ≡ ref
    → unseen seen ref ≡ true
    → (is_null (null_text s) || not (any (λ r. text_eq r s) seen)) ≡ true
clear_of seen none [] e u = refl
clear_of seen none (c ∷ s) e u = cc
clear_of seen (some r) [] e u = refl
clear_of seen (some r) (c ∷ s) e u = ap (λ o. unseen seen o) {x = some (c ∷ s)} {y = some r} e ∙ u

apart : (b a : Bool) → not (if b then true else a) ≡ true → (not a ≡ true) × (not b ≡ true)
apart b a h = ground (arith, h)

narrower :
    (seen : List Text) (ref : Option Text) (x y : Item)
    → null_text x.ref ≡ ref
    → Clear (see seen ref) y
    → Clear seen y × (other_ref x y ≡ true)
narrower seen ref x y e h = go ref x.ref y.ref e h
  where
    go :
        (o : Option Text) (s t : Text)
        → null_text s ≡ o
        → (is_null (null_text t) || not (any (λ r. text_eq r t) (see seen o))) ≡ true
        → ((is_null (null_text t) || not (any (λ r. text_eq r t) seen)) ≡ true)
          × ((is_null (null_text t) || not (text_eq s t)) ≡ true)
    go o s [] e h = (refl, refl)
    go none [] (c ∷ t) e h = (h, refl)
    go none (b ∷ s) (c ∷ t) e h = cc
    go (some r) [] (c ∷ t) e h = cc
    go (some r) (b ∷ s) (c ∷ t) e h =
        apart (text_eq (b ∷ s) (c ∷ t)) (any (λ q. text_eq q (c ∷ t)) seen) (
          ap (λ o. not (any (λ q. text_eq q (c ∷ t)) (see seen o))) {x = some (b ∷ s)} {y = some r}
            e
          ∙ h)

RefsDiffer-items :
    (cfg : AcceptConfig) (seen : List Text) (rs : List Request) (xs : List Item)
    → Matches cfg rs xs
    → refs_differ seen rs ≡ true
    → RefsDiffer xs × All (Clear seen) xs
RefsDiffer-items cfg seen [] [] m u = (tt, tt)
RefsDiffer-items cfg seen [] (x ∷ xs) m u = absurd m
RefsDiffer-items cfg seen (r ∷ rs) [] m u = absurd m
RefsDiffer-items cfg seen (r ∷ rs) (x ∷ xs) m u =
    let u₀ = and_left (unseen seen r.client_ref) (refs_differ (see seen r.client_ref) rs) u in
    let u₁ = and_right (unseen seen r.client_ref) (refs_differ (see seen r.client_ref) rs) u in
    let ih = RefsDiffer-items cfg (see seen r.client_ref) rs xs m.1 u₁ in
    let n = λ (y : Item) (h : Clear (see seen r.client_ref) y).
      narrower seen r.client_ref x y m.0.same_ref h in
    (
      (All-imp _ _ xs (λ y h. (n y h).1) ih.1, ih.0),
      (clear_of seen r.client_ref x.ref m.0.same_ref u₀, All-imp _ _ xs (λ y h. (n y h).0) ih.1),
    )

abbrev pub settled_submission : Submitted → Bool
settled_submission (done r) = is_settled r
settled_submission (invalid_request es) = true

-- When no other transaction runs meanwhile, every submission settles within its attempts: it is refused
-- by the validation, or the loop of `accept` ends with a recorded batch, a replay, a conflict or an error
-- of `insert`, and never with "client_ref conflict did not settle".
pub submit_settles :
    (now : ℕ) (cfg : AcceptConfig) (hash : ℕ → ℕ) (itoa : ℕ → Text) (new_id new_tx : ℕ → ℕ → ℕ)
    (k : ℕ) (batch : Bool) (reqs : List Request) (d : Db)
    → settled_submission (submit now cfg hash itoa new_id new_tx k batch reqs d).0 ≡ true
unfolding submit
submit_settles now cfg hash itoa new_id new_tx k batch reqs d =
    go (prepare cfg itoa batch reqs) refl
  where
    go :
        (p : Prepared)
        → prepare cfg itoa batch reqs ≡ p
        → settled_submission (after_prepare now cfg hash itoa new_id new_tx k p d).0 ≡ true
    go (invalid es) e = refl
    go (prepared xs) e =
        accept_settles now cfg hash itoa new_id new_tx k xs d
          (RefsDiffer-items cfg [] reqs xs (prepare-Matches cfg itoa batch reqs xs e)
            (prepare-refs_differ cfg itoa batch reqs xs e)).0

-- A submission keeps the invariant at any later time, whatever the requests are.
pub submit-Inv :
    (now now' : ℕ) (cfg : AcceptConfig) (hash : ℕ → ℕ) (itoa : ℕ → Text) (new_id new_tx : ℕ → ℕ → ℕ)
    (k : ℕ) (batch : Bool) (reqs : List Request) (d : Db)
    → now ≤ now'
    → Inv now d
    → Inv now' (submit now' cfg hash itoa new_id new_tx k batch reqs d).1
unfolding submit
submit-Inv now now' cfg hash itoa new_id new_tx k batch reqs d late v =
    go (prepare cfg itoa batch reqs)
  where
    go : (p : Prepared) → Inv now' (after_prepare now' cfg hash itoa new_id new_tx k p d).1
    go (prepared xs) = accept-Inv now now' cfg hash itoa new_id new_tx k xs d late v
    go (invalid es) = Inv-later now now' d late v
