-- ===== src/ErrorGroups/Changes.antt =====
-- What a change of a group needs and does.
use loglens_api.Base.{
  ℕ, ◌≡◌, refl, true, false, Option, none, some, inl, inr, ◌⊎◌, Bool-cases, Option-cases, arith,
  ◌==◌,
}
use loglens_api.Text.Decimal.{ℤ}
use loglens_api.Table.{find_first, update_where}
use loglens_api.Models.{ErrorGroup, User, Instant}
use loglens_api.Models.Enums.{UserRole}
use loglens_api.Effect.{Env, World, ok}
use loglens_api.Repositories.ErrorGroups as group_repo
use loglens_api.Repositories.Users as user_repo
use loglens_api.Repositories.Users.{same_id}
use loglens_api.ErrorGroups.{get_error_group, is_forbidden, update_assignment}

abbrev pub assign : Option ℕ → Instant → ErrorGroup → ErrorGroup
assign assigned_to now g = record g { assigned_to = assigned_to; updated_at = now }

not_forbidden :
    (user : User) (a : Option ℤ)
    → is_forbidden user a ≡ false
    → (user.role ≡ UserRole.admin)
      ⊎ ((a ≡ none) ⊎ ((n : ℤ) × (a ≡ some n) × (same_id user.id n ≡ true)))
not_forbidden user none h = inr (inl refl)
not_forbidden user (some n) h = elim (Bool-cases (same_id user.id n)) [
  | inl own ↦ inr (inr (n, refl, own))
  | inr other ↦ inl (ground arith)
]

module _ (env : Env) (z : ℤ) (user : User) (w : World env) {answer : ErrorGroup} where
  passes :
      (a : Option ℤ)
      → (update_assignment env z a user w).0 ≡ ok answer
      → (is_forbidden user a ≡ false)
        × ((g : ErrorGroup) × (find_first (λ g. same_id g.id z) w.working.error_groups ≡ some g))
  unfolding update_assignment get_error_group group_repo.get_by_id
  passes a h = elim (Option-cases (find_first (λ g. same_id g.id z) w.working.error_groups)) [
    | inl e ↦ absurd (ground arith)
    | inr (g, e) ↦ (ground arith, (g, e))
  ]

  -- An assignment that succeeds was made by an administrator, or it names nobody or the developer who
  -- made it.
  pub update_assignment-allowed :
      (a : Option ℤ)
      → (update_assignment env z a user w).0 ≡ ok answer
      → (user.role ≡ UserRole.admin)
        ⊎ ((a ≡ none) ⊎ ((n : ℤ) × (a ≡ some n) × (same_id user.id n ≡ true)))
  update_assignment-allowed a h = not_forbidden user a (passes a h).0

  -- A group is given only to a user who is there. The assignment changes the assignee in the group's
  -- row, nothing else but the time of the change, and is committed.
  pub update_assignment-saves :
      (n : ℤ)
      → (update_assignment env z (some n) user w).0 ≡ ok answer
      → (g : ErrorGroup) × (u : User) × (find_first (λ g. same_id g.id z) w.working.error_groups
          ≡ some g)
        × (find_first (λ u. same_id u.id n) w.working.users ≡ some u)
        × (answer ≡ assign (some u.id) w.transaction_time g)
        × ((update_assignment env z (some n) user w).1.committed ≡ record w.working {
          error_groups =
              update_where
                (λ h. h.id == g.id)
                (assign (some u.id) w.transaction_time)
                w.working.error_groups;
        })
  unfolding update_assignment get_error_group group_repo.get_by_id user_repo.get_by_id
      group_repo.update_assignment
  update_assignment-saves n h =
      let (allowed, (g, e)) = passes (some n) h in
      elim (Option-cases (find_first (λ u. same_id u.id n) w.working.users)) [
        | inl missing ↦ absurd (ground arith)
        | inr (u, found) ↦ (g, u, e, found, ground arith, ground arith)
      ]
