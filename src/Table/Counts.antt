-- ===== src/Table/Counts.antt =====
-- How many rows of a table fit: the view of it that forgets the order. Ids are a column of numbers.
use loglens_api.Base.{
  ℕ, zero, suc, ◌+◌, ◌≤◌, ◌≡◌, refl, Bool, true, false, ◌&&◌, ◌||◌, List, [], ◌∷◌, map, arith,
  length, take, inl, inr, Bool-cases, if◌then◌else◌, ◌==◌, All,
}
use loglens_api.Table.{select_where, delete_where, insert_sorted, order_by}
use loglens_api.Table.Laws.{All-map}

-- How often a number stands in a list.
unfoldable pub count : ℕ → List ℕ → ℕ
count i [] = 0
count i (j ∷ js) = count i js + (if j == i then 1 else 0)

unfoldable pub member : List ℕ → ℕ → Bool
member [] n = false
member (m ∷ ms) n = n == m || member ms n

pub count-take-le : (i n : ℕ) (js : List ℕ) → count i (take n js) ≤ count i js
unfolding count
count-take-le i zero js = omega arith
count-take-le i (suc n) [] = omega arith
count-take-le i (suc n) (j ∷ js) = ground (arith, count-take-le i n js)

-- A number is a member exactly if it is counted.
pub member-count : (i : ℕ) (js : List ℕ) → member js i ≡ (if count i js == 0 then false else true)
unfolding count member
member-count i [] = refl
member-count i (j ∷ js) = ground (arith, member-count i js)

module _ {A : Type 0} where
  abbrev pub how_many : (A → Bool) → List A → ℕ
  how_many p xs = length (select_where p xs)

  pub how_many-delete_where-le :
      (p q : A → Bool) (xs : List A) → how_many p (delete_where q xs) ≤ how_many p xs
  unfolding select_where delete_where
  how_many-delete_where-le p q [] = omega arith
  how_many-delete_where-le p q (x ∷ xs) = ground (arith, how_many-delete_where-le p q xs)

  -- Where all that `q` fits `p` fits too, deleting by `q` takes that many from those of `p`.
  pub how_many-delete_where :
      (p q : A → Bool) (xs : List A)
      → All (λ x. q x ≡ true → p x ≡ true) xs
      → how_many p (delete_where q xs) + how_many q xs ≡ how_many p xs
  unfolding select_where delete_where
  how_many-delete_where p q [] h = omega arith
  how_many-delete_where p q (x ∷ xs) h = ground (arith, h.0, how_many-delete_where p q xs h.1)

  -- Deleting some of the rows first changes nothing.
  pub delete_where-delete_where :
      (p q : A → Bool) (xs : List A)
      → All (λ x. q x ≡ true → p x ≡ true) xs
      → delete_where p (delete_where q xs) ≡ delete_where p xs
  unfolding delete_where
  delete_where-delete_where p q [] h = refl
  delete_where-delete_where p q (x ∷ xs) h =
      ground (arith, h.0, delete_where-delete_where p q xs h.1)

  pub delete_where_none : (p : A → Bool) (xs : List A) → how_many p xs ≡ 0 → delete_where p xs ≡ xs
  unfolding select_where delete_where
  delete_where_none p [] h = refl
  delete_where_none p (x ∷ xs) h = ground (arith, delete_where_none p xs)

  how_many-false : (xs : List A) → how_many (λ _. false) xs ≡ 0
  unfolding select_where
  how_many-false [] = omega arith
  how_many-false (x ∷ xs) = how_many-false xs

  pub how_many_or :
      (p q : A → Bool) (xs : List A)
      → ((x : A) → p x ≡ true → q x ≡ false)
      → how_many (λ x. p x || q x) xs ≡ how_many p xs + how_many q xs
  unfolding select_where
  how_many_or p q [] apart = omega arith
  how_many_or p q (x ∷ xs) apart = ground (arith, apart x, how_many_or p q xs apart)

  pub how_many_and-le :
      (p q : A → Bool) (xs : List A) → how_many (λ x. p x && q x) xs ≤ how_many q xs
  unfolding select_where
  how_many_and-le p q [] = omega arith
  how_many_and-le p q (x ∷ xs) = ground (arith, how_many_and-le p q xs)

  pub how_many_none : (p : A → Bool) (xs : List A) → how_many p xs ≡ 0 → All (λ x. p x ≡ false) xs
  unfolding select_where
  how_many_none p [] h = tt
  how_many_none p (x ∷ xs) h = (ground arith, how_many_none p xs (ground arith))

  -- If at most one row fits `q`, and one fits both, the row that fits `q` fits `p`.
  pub only_one :
      (p q : A → Bool) (xs : List A)
      → how_many q xs ≤ 1
      → 1 ≤ how_many (λ x. p x && q x) xs
      → All (λ x. q x ≡ true → p x ≡ true) xs
  unfolding select_where
  only_one p q [] one both = tt
  only_one p q (x ∷ xs) one both = elim (Bool-cases (q x)) [
    | inl e ↦ (
      λ _. ground (arith, how_many_and-le p q xs),
      All-map (λ x. q x ≡ false) _ xs (λ x no yes. absurd (ground arith))
          (how_many_none q xs (ground arith)),
    )
    | inr e ↦ (λ yes. absurd (ground arith), only_one p q xs (ground arith) (ground arith))
  ]

  pub All-diagonal :
      (P : ℕ → A → Type 0) (f : A → ℕ) (xs : List A)
      → ((i : ℕ) → All (P i) xs)
      → All (λ x. P (f x) x) xs
  All-diagonal P f [] h = tt
  All-diagonal P f (x ∷ xs) h = ((h (f x)).0, All-diagonal P f xs (λ i. (h i).1))

  -- Sorting forgets nothing.
  pub count-insert_sorted :
      (i : ℕ) (f : A → ℕ) (before : A → A → Bool) (x : A) (xs : List A)
      → count i (map f (insert_sorted before x xs)) ≡ count i (map f (x ∷ xs))
  unfolding count insert_sorted
  count-insert_sorted i f before x [] = refl
  count-insert_sorted i f before x (y ∷ ys) = ground (arith, count-insert_sorted i f before x ys)

  pub count-order_by :
      (i : ℕ) (f : A → ℕ) (before : A → A → Bool) (xs : List A)
      → count i (map f (order_by before xs)) ≡ count i (map f xs)
  unfolding count order_by
  count-order_by i f before [] = refl
  count-order_by i f before (x ∷ xs) =
      ground
        (arith, count-insert_sorted i f before x (order_by before xs), count-order_by i f before xs)

  pub count-select_where :
      (i : ℕ) (f : A → ℕ) (p : A → Bool) (xs : List A)
      → count i (map f (select_where p xs)) ≡ how_many (λ x. p x && f x == i) xs
  unfolding count select_where
  count-select_where i f p [] = refl
  count-select_where i f p (x ∷ xs) = ground (arith, count-select_where i f p xs)

  -- Rows that a list of distinct ids names, each of them in the table once.
  pub how_many-member :
      (f : A → ℕ) (is : List ℕ) (xs : List A)
      → ((i : ℕ) → count i is ≤ how_many (λ x. f x == i) xs)
      → ((i : ℕ) → how_many (λ x. f x == i) xs ≤ 1)
      → how_many (λ x. member is (f x)) xs ≡ length is
  unfolding count member
  how_many-member f [] xs there once = how_many-false xs
  how_many-member f (i ∷ is) xs there once =
      let new : count i is ≡ 0 = ground (arith, there i, once i) in
      let apart : (x : A) → (f x == i) ≡ true → member is (f x) ≡ false =
        λ x e. ground (arith, member-count (f x) is) in
      let rest = how_many-member f is xs (λ j. ground (arith, there j)) once in
      ground (arith, how_many_or (λ x. f x == i) (λ x. member is (f x)) xs apart, there i, once i)
