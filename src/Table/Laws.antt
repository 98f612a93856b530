-- ===== src/Table/Laws.antt =====
-- What each statement keeps of a table.
use loglens_api.Base.{
  ◌+◌, ◌≤◌, ◌≡◌, refl, ap, subst, suc, Bool, true, false, none, some, List, [], ◌∷◌, arith, length,
  All, if◌then◌else◌, inl, inr, Bool-cases, length-append,
}
use loglens_api.Table.{find_first, select_where, update_where, insert_row, insert_sorted, order_by}

module _ {A : Type 0} where
  pub All-update_where {κ} :
      (P Q : A → Type κ) (p : A → Bool) (f : A → A) (xs : List A)
      → ((x : A) → P x → Q (if p x then f x else x))
      → All P xs
      → All Q (update_where p f xs)
  unfolding update_where
  All-update_where P Q p f [] keep h = tt
  All-update_where P Q p f (x ∷ xs) keep h = (keep x h.0, All-update_where P Q p f xs keep h.1)

  pub All-insert_row {κ} :
      (P : A → Type κ) (x : A) (xs : List A) → P x → All P xs → All P (insert_row x xs)
  unfolding insert_row
  All-insert_row P x [] px h = (px, tt)
  All-insert_row P x (y ∷ xs) px h = (h.0, All-insert_row P x xs px h.1)

  pub All-map {κ κ'} :
      (P : A → Type κ) (Q : A → Type κ') (xs : List A) → ((x : A) → P x → Q x) → All P xs → All Q xs
  All-map P Q [] f h = tt
  All-map P Q (x ∷ xs) f h = (f x h.0, All-map P Q xs f h.1)

  -- A row that is found is in the table and fits.
  pub find_first-All {κ} :
      (P : A → Type κ) (p : A → Bool) (xs : List A) {x : A}
      → All P xs
      → find_first p xs ≡ some x
      → P x
  unfolding find_first
  find_first-All P p [] h e = cc
  find_first-All P p (y ∷ xs) h e = elim (Bool-cases (p y)) [
    | inl t ↦ subst P (ground arith) h.0
    | inr n ↦ find_first-All P p xs h.1 (ground arith)
  ]

  pub find_first_fits : (p : A → Bool) (xs : List A) {x : A} → find_first p xs ≡ some x → p x ≡ true
  unfolding find_first
  find_first_fits p [] e = cc
  find_first_fits p (y ∷ xs) {x} e = ground (arith, find_first_fits p xs {x = x})

  -- The first row that fits is still the first one, updated, if the update keeps what fits.
  pub find_first-update_where :
      (p q : A → Bool) (f : A → A) (xs : List A)
      → ((x : A) → q (if p x then f x else x) ≡ q x)
      → find_first q (update_where p f xs)
        ≡ (elim (find_first q xs) [ none ↦ none | some x ↦ some (if p x then f x else x) ])
  unfolding find_first update_where
  find_first-update_where p q f [] keep = refl
  find_first-update_where p q f (x ∷ xs) keep = elim (Bool-cases (q x)) [
    | inl e ↦ rw (keep x, e)
    | inr e ↦ rw (keep x, e) (find_first-update_where p q f xs keep)
  ]

  pub find_first-insert_row :
      (q : A → Bool) (y : A) (xs : List A)
      → find_first q xs ≡ none
      → q y ≡ true
      → find_first q (insert_row y xs) ≡ some y
  unfolding find_first insert_row
  find_first-insert_row q y [] e h = rw h
  find_first-insert_row q y (x ∷ xs) e h = ground (arith, find_first-insert_row q y xs)

  -- A new row at the end hides no row that was found before.
  pub find_first-insert_row_old :
      (q : A → Bool) (y : A) (xs : List A) {x : A}
      → find_first q xs ≡ some x
      → find_first q (insert_row y xs) ≡ some x
  unfolding find_first insert_row
  find_first-insert_row_old q y [] e = cc
  find_first-insert_row_old q y (z ∷ xs) {x} e =
      ground (arith, find_first-insert_row_old q y xs {x = x})

  pub length-update_where :
      (p : A → Bool) (f : A → A) (xs : List A) → length (update_where p f xs) ≡ length xs
  unfolding update_where
  length-update_where p f [] = refl
  length-update_where p f (x ∷ xs) = ap suc (length-update_where p f xs)

  pub length-insert_row : (x : A) (xs : List A) → length (insert_row x xs) ≡ length xs + 1
  unfolding insert_row
  length-insert_row x xs = omega (arith, length-append xs (x ∷ []))

  pub length-insert_sorted :
      (before : A → A → Bool) (x : A) (xs : List A)
      → length (insert_sorted before x xs) ≡ length xs + 1
  unfolding insert_sorted
  length-insert_sorted before x [] = omega arith
  length-insert_sorted before x (y ∷ ys) = ground (arith, length-insert_sorted before x ys)

  pub length-order_by :
      (before : A → A → Bool) (xs : List A) → length (order_by before xs) ≡ length xs
  unfolding order_by
  length-order_by before [] = refl
  length-order_by before (x ∷ xs) =
      omega (arith, length-insert_sorted before x (order_by before xs), length-order_by before xs)

  pub length-select_where-le : (p : A → Bool) (xs : List A) → length (select_where p xs) ≤ length xs
  unfolding select_where
  length-select_where-le p [] = omega arith
  length-select_where-le p (x ∷ xs) = ground (arith, length-select_where-le p xs)

  pub All-select_where : (p : A → Bool) (xs : List A) → All (λ x. p x ≡ true) (select_where p xs)
  unfolding select_where
  All-select_where p [] = tt
  All-select_where p (x ∷ xs) = elim (Bool-cases (p x)) [
    | inl e ↦ rw e (e, All-select_where p xs)
    | inr e ↦ rw e (All-select_where p xs)
  ]

  pub find_first-none→All :
      (p : A → Bool) (xs : List A) → find_first p xs ≡ none → All (λ x. p x ≡ false) xs
  unfolding find_first
  find_first-none→All p [] h = tt
  find_first-none→All p (x ∷ xs) h = elim (Bool-cases (p x)) [
    | inl e ↦ absurd (ground arith)
    | inr e ↦ (e, find_first-none→All p xs (ground arith))
  ]

  pub select_where-none :
      (p : A → Bool) (xs : List A) → find_first p xs ≡ none → select_where p xs ≡ []
  unfolding find_first select_where
  select_where-none p [] h = refl
  select_where-none p (x ∷ xs) h = ground (arith, select_where-none p xs)

  pub length-select_where-insert_row :
      (p : A → Bool) (x : A) (xs : List A)
      → length (select_where p (insert_row x xs))
        ≡ length (select_where p xs) + (if p x then 1 else 0)
  unfolding select_where insert_row
  length-select_where-insert_row p x [] = ground arith
  length-select_where-insert_row p x (y ∷ xs) =
      ground (arith, length-select_where-insert_row p x xs)

  -- An update that keeps what fits keeps how many rows fit.
  pub length-select_where-update_where :
      (q p : A → Bool) (f : A → A) (xs : List A)
      → ((x : A) → q (if p x then f x else x) ≡ q x)
      → length (select_where q (update_where p f xs)) ≡ length (select_where q xs)
  unfolding select_where update_where
  length-select_where-update_where q p f [] keep = refl
  length-select_where-update_where q p f (x ∷ xs) keep =
      rw (keep x) (ground (arith, length-select_where-update_where q p f xs keep))

  -- No row is found where none fits.
  pub find_first-unfit :
      (p : A → Bool) (xs : List A) → All (λ x. p x ≡ false) xs → find_first p xs ≡ none
  unfolding find_first
  find_first-unfit p [] h = refl
  find_first-unfit p (x ∷ xs) h = rw (h.0) (find_first-unfit p xs h.1)

  pub All-always {κ} : (P : A → Type κ) (xs : List A) → ((x : A) → P x) → All P xs
  All-always P [] h = tt
  All-always P (x ∷ xs) h = (h x, All-always P xs h)
