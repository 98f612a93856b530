-- ===== src/Workers/Analysis/Newest.antt =====
-- The analysis that was added last is the newest of its group.
use loglens_api.Base.{
  ℕ, ◌≤◌, ◌<◌, ◌≡◌, refl, Bool, true, false, some, List, [], ◌∷◌, arith, All, ◌==◌, Bool-cases, inl,
  inr,
}
use loglens_api.Table.{find_first, select_where, insert_row, insert_sorted, order_by}
use loglens_api.Table.Laws.{find_first-insert_row, find_first-unfit, All-map}
use loglens_api.Text.Decimal.{pos}
use loglens_api.Models.{Instant, ErrorAnalysis}
use loglens_api.Repositories.Users.{same_id}
use loglens_api.Repositories.Analyses.{is_newer, for_group}

module _ {A : Type 0} where
  select_where-insert_row :
      (p : A → Bool) (x : A) (xs : List A)
      → p x ≡ true
      → select_where p (insert_row x xs) ≡ insert_row x (select_where p xs)
  unfolding select_where insert_row
  select_where-insert_row p x [] fits = ground arith
  select_where-insert_row p x (y ∷ ys) fits = ground (arith, select_where-insert_row p x ys fits)

  order_by-first :
      (before : A → A → Bool) (x : A) (xs : List A)
      → All (λ y. before y x ≡ false) xs
      → order_by before (insert_row x xs) ≡ x ∷ order_by before xs
  unfolding order_by insert_sorted insert_row
  order_by-first before x [] h = refl
  order_by-first before x (y ∷ ys) h = rw (order_by-first before x ys h.1, h.0) refl

  All-select_where_of {κ} :
      (P : A → Type κ) (p : A → Bool) (xs : List A) → All P xs → All P (select_where p xs)
  unfolding select_where
  All-select_where_of P p [] h = tt
  All-select_where_of P p (x ∷ xs) h = elim (Bool-cases (p x)) [
    | inl e ↦ rw e (h.0, All-select_where_of P p xs h.1)
    | inr e ↦ rw e (All-select_where_of P p xs h.1)
  ]

-- Before this time and with smaller ids.
abbrev pub IsOlder : Instant → ℕ → ErrorAnalysis → Type 0
IsOlder now id a = (a.created_at ≤ now) × (a.id < id)

pub for_group-newest :
    (g : ℕ) (new : ErrorAnalysis) (rows : List ErrorAnalysis)
    → new.error_group_id ≡ g
    → All (IsOlder new.created_at new.id) rows
    → for_group (pos g) (insert_row new rows) ≡ new ∷ for_group (pos g) rows
unfolding for_group
for_group-newest g new rows group older =
    let mine = λ (a : ErrorAnalysis). same_id a.error_group_id (pos g) in
    rw (select_where-insert_row mine new rows (ground arith)) (
      order_by-first is_newer new (select_where mine rows) (
        All-select_where_of (λ y. is_newer y new ≡ false) mine rows
          (All-map (IsOlder new.created_at new.id) _ rows (λ y h. ground arith) older)))

pub stored-newest :
    (new : ErrorAnalysis) (rows : List ErrorAnalysis)
    → All (IsOlder new.created_at new.id) rows
    → find_first (λ a. a.id == new.id) (insert_row new rows) ≡ some new
stored-newest new rows older =
    find_first-insert_row _ new rows
      (find_first-unfit _ rows
        (All-map (IsOlder new.created_at new.id) _ rows (λ y h. ground arith) older))
      (ground arith)
