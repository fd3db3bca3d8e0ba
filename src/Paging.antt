-- ===== src/Paging.antt =====
-- Pages of a table in descending order of id, as the list queries of internal/message, internal/billing
-- and internal/customer select them, and a client that reads page after page.
pub mod Sorted
pub mod Complete
use sms_gateway.Common.{
  ℕ, zero, suc, ◌+◌, Bool, true, false, ◌&&◌, ◌||◌, ◌==◌, List, [], ◌∷◌, ◌++◌, keep, take, ltb, leb,
  length, if◌then◌else◌,
}

module _ {A : Type 0} (id_of : A → ℕ) where
  -- ORDER BY id DESC
  unfoldable pub insert_desc : A → List A → List A
  insert_desc x [] = x ∷ []
  insert_desc x (y ∷ ys) = if leb (id_of y) (id_of x) then x ∷ y ∷ ys else y ∷ insert_desc x ys

  unfoldable pub sort_desc : List A → List A
  sort_desc [] = []
  sort_desc (x ∷ xs) = insert_desc x (sort_desc xs)

  -- after IS NULL OR id < after, where `store.NullID` turns the nil id, 0, into NULL.
  abbrev pub before : ℕ → A → Bool
  before after x = after == 0 || ltb (id_of x) after

  -- A page of the rows that satisfy `p`, and whether more pages follow: LIMIT limit + 1, of which the
  -- last row is only counted.
  unfoldable pub page_of : (A → Bool) → ℕ → ℕ → List A → List A × Bool
  page_of p after limit rows =
      let list = take (limit + 1) (sort_desc (keep (λ x. p x && before after x) rows)) in
      let more = ltb limit (length list) in (if more then take limit list else list, more)

  -- The id of the last row of a page, from which the client asks for the next one.
  abbrev pub last_id : List A → ℕ
  last_id [] = 0
  last_id (x ∷ []) = id_of x
  last_id (x ∷ y ∷ ys) = last_id (y ∷ ys)

  -- A client that reads at most `fuel` pages and puts them together.
  unfoldable pub read_pages : (ℕ → List A × Bool) → ℕ → ℕ → List A
  read_pages fetch zero after = []
  read_pages fetch (suc fuel) after =
      let (list, more) = fetch after in
      let rest = read_pages fetch fuel (last_id list) in if more then list ++ rest else list
