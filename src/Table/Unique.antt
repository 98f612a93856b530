-- ===== src/Table/Unique.antt =====
-- Primary keys that come from a sequence, and unique indexes.
use loglens_api.Base.{
  ℕ, suc, ◌+◌, ◌≤◌, ◌≡◌, Bool, true, none, some, List, [], ◌∷◌, arith, length, All, inl, inr,
  Bool-cases, if◌then◌else◌,
}
use loglens_api.Table.{find_first, select_where, update_where, delete_where, insert_row}
use loglens_api.Table.Laws.{
  select_where-none, length-select_where-insert_row, length-select_where-update_where,
}

-- The ids of the rows increase from `low` on, and lie below the sequence's next one.
abbrev pub IsNumbered : {A : Type 0} → (A → ℕ) → ℕ → ℕ → List A → Type 0
IsNumbered id low next [] = low ≤ next
IsNumbered id low next (x ∷ xs) = (low ≤ id x) × IsNumbered id (suc (id x)) next xs

-- No two rows fit.
abbrev pub AtMostOne : {A : Type 0} → (A → Bool) → List A → Type 0
AtMostOne p xs = length (select_where p xs) ≤ 1

module _ {A : Type 0} (id : A → ℕ) where
  pub IsNumbered-later :
      (low next next' : ℕ) (xs : List A)
      → next ≤ next'
      → IsNumbered id low next xs
      → IsNumbered id low next' xs
  IsNumbered-later low next next' [] later h = omega arith
  IsNumbered-later low next next' (x ∷ xs) later h =
      (h.0, IsNumbered-later (suc (id x)) next next' xs later h.1)

  IsNumbered-lower :
      (low low' next : ℕ) (xs : List A)
      → low' ≤ low
      → IsNumbered id low next xs
      → IsNumbered id low' next xs
  IsNumbered-lower low low' next [] lower h = omega arith
  IsNumbered-lower low low' next (x ∷ xs) lower h = (omega (arith, h.0), h.1)

  pub IsNumbered-insert_row :
      (low next : ℕ) (x : A) (xs : List A)
      → id x ≡ next
      → IsNumbered id low next xs
      → IsNumbered id low (next + 1) (insert_row x xs)
  unfolding insert_row
  IsNumbered-insert_row low next x [] e h = (omega arith, omega arith)
  IsNumbered-insert_row low next x (y ∷ xs) e h =
      (h.0, IsNumbered-insert_row (suc (id y)) next x xs e h.1)

  pub IsNumbered-update_where :
      (p : A → Bool) (f : A → A) (low next : ℕ) (xs : List A)
      → ((x : A) → id (f x) ≡ id x)
      → IsNumbered id low next xs
      → IsNumbered id low next (update_where p f xs)
  unfolding update_where
  IsNumbered-update_where p f low next [] keeps h = h
  IsNumbered-update_where p f low next (x ∷ xs) keeps h = elim (Bool-cases (p x)) [
    | inl e ↦ rw (e, keeps x) (h.0, IsNumbered-update_where p f (suc (id x)) next xs keeps h.1)
    | inr e ↦ rw e (h.0, IsNumbered-update_where p f (suc (id x)) next xs keeps h.1)
  ]

  pub IsNumbered-delete_where :
      (p : A → Bool) (low next : ℕ) (xs : List A)
      → IsNumbered id low next xs
      → IsNumbered id low next (delete_where p xs)
  unfolding delete_where
  IsNumbered-delete_where p low next [] h = h
  IsNumbered-delete_where p low next (x ∷ xs) h = elim (Bool-cases (p x)) [
    | inl e ↦ rw e (
        IsNumbered-delete_where p low next xs
          (IsNumbered-lower (suc (id x)) low next xs (omega (arith, h.0)) h.1))
    | inr e ↦ rw e (h.0, IsNumbered-delete_where p (suc (id x)) next xs h.1)
  ]

module _ {A : Type 0} where
  -- A row is inserted where no other one fits, or it does not fit itself.
  pub AtMostOne-insert_row :
      (p : A → Bool) (x : A) (xs : List A)
      → (p x ≡ true → find_first p xs ≡ none)
      → AtMostOne p xs
      → AtMostOne p (insert_row x xs)
  AtMostOne-insert_row p x xs free h = elim (Bool-cases (p x)) [
    | inl fits ↦
        rw (length-select_where-insert_row p x xs, select_where-none p xs (free fits), fits)
          (omega arith)
    | inr out ↦ rw (length-select_where-insert_row p x xs, out) (omega (arith, h))
  ]

  pub AtMostOne-update_where :
      (q p : A → Bool) (f : A → A) (xs : List A)
      → ((x : A) → q (if p x then f x else x) ≡ q x)
      → AtMostOne q xs
      → AtMostOne q (update_where p f xs)
  AtMostOne-update_where q p f xs keeps h = rw (length-select_where-update_where q p f xs keeps) h

  -- What fits after an update, if the updated rows fit `r`.
  pub length-select_where-update_where-le :
      (q r p : A → Bool) (f : A → A) (xs : List A)
      → All (λ x. q (if p x then f x else x) ≡ true → r x ≡ true) xs
      → length (select_where q (update_where p f xs)) ≤ length (select_where r xs)
  unfolding select_where update_where
  length-select_where-update_where-le q r p f [] fits = omega arith
  length-select_where-update_where-le q r p f (x ∷ xs) fits =
      let rest = length-select_where-update_where-le q r p f xs fits.1 in
      elim (Bool-cases (q (if p x then f x else x))) [
        | inl e ↦ rw (e, fits.0 e) (omega (arith, rest))
        | inr e ↦ elim (Bool-cases (r x)) [
          | inl o ↦ rw (e, o) (omega (arith, rest))
          | inr o ↦ rw (e, o) rest
        ]
      ]

  no_row :
      (p : A → Bool) (x : A) (ys : List A)
      → length (select_where p ys) ≤ 0
      → All (λ y. p y ≡ true → y ≡ x) ys
  unfolding select_where
  no_row p x [] empty = tt
  no_row p x (y ∷ ys) empty = elim (Bool-cases (p y)) [
    | inl fits ↦ absurd (ground arith)
    | inr out ↦ (λ e. absurd (cc (e, out)), no_row p x ys (ground arith))
  ]

  -- A row that is found by a unique key is the only one with that key.
  pub only_row :
      (p : A → Bool) (xs : List A) {x : A}
      → find_first p xs ≡ some x
      → AtMostOne p xs
      → All (λ y. p y ≡ true → y ≡ x) xs
  unfolding find_first select_where
  only_row p [] found one = tt
  only_row p (y ∷ ys) {x} found one = elim (Bool-cases (p y)) [
    | inl fits ↦ (λ e. ground arith, no_row p x ys (ground arith))
    | inr out ↦ (λ e. absurd (cc (e, out)), only_row p ys (ground arith) (ground arith))
  ]
