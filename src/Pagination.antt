-- ===== src/Pagination.antt =====
-- What `list_logs` and `list_error_groups` share: the order of the rows, a page of them, and how many
-- pages there are.
use loglens_api.Base.{
  ℕ, zero, suc, ◌+◌, ◌-◌, ◌*◌, ◌/◌, ◌≤◌, ◌<◌, ◌≡◌, refl, ap, ◌∙◌, sym, Bool, ◌&&◌, ◌||◌, List, [],
  ◌∷◌, ◌++◌, arith, ltb, leb, ◌==◌, if◌then◌else◌, length, take, drop, take_of_length-le,
}
use native.Mathlib.Omega.{div_any}
use native.Mathlib.Nat.{mod-lt}

pub data SortOrder : Type 0 where
  asc desc : SortOrder

-- `ORDER BY column, id`, both ascending or both descending.
abbrev pub in_order : SortOrder → ℕ → ℕ → ℕ → ℕ → Bool
in_order asc column id column' id' = ltb column column' || (column == column' && leb id id')
in_order desc column id column' id' = ltb column' column || (column == column' && leb id' id)

pub record PaginationMeta : Type 0 where
  pub page : ℕ
  pub page_size : ℕ
  pub total_items : ℕ
  pub total_pages : ℕ

-- `ceil(total_items / page_size) if total_items else 0`
unfoldable pub total_pages_of : ℕ → ℕ → ℕ
total_pages_of total_items page_size =
    if total_items == 0 then 0 else (total_items + page_size - 1) / page_size

-- `.limit(page_size).offset((page - 1) * page_size)`
unfoldable pub page_of {ℓ} : {A : Type ℓ} → ℕ → ℕ → List A → List A
page_of page page_size rows = take page_size (drop ((page - 1) * page_size) rows)

fewer_pages :
    (q r total size : ℕ)
    → 0 < total
    → r < size
    → size * q + r ≡ total + size - 1
    → (q - 1) * size < total
fewer_pages zero r total size some_items small e = omega arith
fewer_pages (suc p) r total size some_items small e = grind arith

total_pages_of-pos : (n size : ℕ) → total_pages_of (suc n) size ≡ (suc n + size - 1) / size
unfolding total_pages_of
total_pages_of-pos n size = ground arith

-- Exactly as many pages as are needed: they hold all items, and one fewer would not.
pub total_pages_bounds :
    (total size : ℕ)
    → 0 < size
    → (total ≤ total_pages_of total size * size)
      × (0 < total → (total_pages_of total size - 1) * size < total)
unfolding total_pages_of
total_pages_bounds zero size pos = (omega arith, λ none. absurd (omega arith))
total_pages_bounds (suc n) size pos =
    let split = div_any (suc n + size - 1) size in
    let small = mod-lt (suc n + size - 1) pos in
    rw (total_pages_of-pos n size)
      (grind arith, λ some_items. fewer_pages _ _ (suc n) size some_items small split)

module _ {ℓ} {A : Type ℓ} where
  -- The first `n` pages, one after the other.
  abbrev pub first_pages : ℕ → ℕ → List A → List A
  first_pages zero size rows = []
  first_pages (suc n) size rows = first_pages n size rows ++ page_of (suc n) size rows

  take-nil : (b : ℕ) → ◌≡◌ {A = List A} [] (take b [])
  take-nil zero = refl
  take-nil (suc b) = refl

  take-add : (a b : ℕ) (xs : List A) → take (a + b) xs ≡ take a xs ++ take b (drop a xs)
  take-add zero b xs = ap (λ k. take k xs) (omega arith)
  take-add (suc a) b [] = sym (take-nil (suc a + b)) ∙ take-nil b
  take-add (suc a) b (x ∷ xs) =
      ap (λ k. take k (x ∷ xs)) {x = suc a + b} {y = suc (a + b)} (omega arith)
      ∙ ap (◌∷◌ x) (take-add a b xs)

  page_of-suc :
      (n size : ℕ) (rows : List A) → page_of (suc n) size rows ≡ take size (drop (n * size) rows)
  unfolding page_of
  page_of-suc n size rows = ap (λ k. take size (drop (k * size) rows)) {x = suc n - 1} (omega arith)

  pub first_pages-take :
      (n size : ℕ) (rows : List A) → first_pages n size rows ≡ take (n * size) rows
  first_pages-take zero size rows = ap (λ k. take k rows) {x = 0} (grind arith)
  first_pages-take (suc n) size rows =
      rw (first_pages-take n size rows, page_of-suc n size rows, ← take-add (n * size) size rows)
        (ap (λ k. take k rows) {x = n * size + size} (grind arith))

  -- The pages, one after the other, are all the rows in their order: none is lost and none is twice.
  pub first_pages-all :
      (size : ℕ) (rows : List A)
      → 0 < size
      → first_pages (total_pages_of (length rows) size) size rows ≡ rows
  first_pages-all size rows pos =
      rw (first_pages-take (total_pages_of (length rows) size) size rows)
        (take_of_length-le _ rows (total_pages_bounds (length rows) size pos).0)
