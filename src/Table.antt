-- ===== src/Table.antt =====
-- A table as the list of its rows: what the statements of the repositories do to one.
pub mod Laws
pub mod Counts
pub mod Unique
use loglens_api.Base.{
  ℕ, Bool, true, false, Option, none, some, List, [], ◌∷◌, ◌++◌, if◌then◌else◌, leb,
}

module _ {A : Type 0} where
  -- `scalar(select(T).where(p))`: the first row that fits.
  unfoldable pub find_first : (A → Bool) → List A → Option A
  find_first p [] = none
  find_first p (x ∷ xs) = if p x then some x else find_first p xs

  -- `select(T).where(p)`
  unfoldable pub select_where : (A → Bool) → List A → List A
  select_where p [] = []
  select_where p (x ∷ xs) = let rest = select_where p xs in if p x then x ∷ rest else rest

  -- `update(T).where(p).values(...)`
  unfoldable pub update_where : (A → Bool) → (A → A) → List A → List A
  update_where p f [] = []
  update_where p f (x ∷ xs) = (if p x then f x else x) ∷ update_where p f xs

  -- `delete(T).where(p)`
  unfoldable pub delete_where : (A → Bool) → List A → List A
  delete_where p [] = []
  delete_where p (x ∷ xs) = let rest = delete_where p xs in if p x then rest else x ∷ rest

  -- `add`, then `flush`: a new row goes last.
  unfoldable pub insert_row : A → List A → List A
  insert_row x xs = xs ++ x ∷ []

  -- `ORDER BY`, as a stable insertion sort: `before x y` says that `x` may stand before `y`.
  unfoldable pub insert_sorted : (A → A → Bool) → A → List A → List A
  insert_sorted before x [] = x ∷ []
  insert_sorted before x (y ∷ ys) =
      let rest = insert_sorted before x ys in if before x y then x ∷ y ∷ ys else y ∷ rest

  unfoldable pub order_by : (A → A → Bool) → List A → List A
  unfolding insert_sorted
  order_by before [] = []
  order_by before (x ∷ xs) = insert_sorted before x (order_by before xs)
