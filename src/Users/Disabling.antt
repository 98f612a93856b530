-- ===== src/Users/Disabling.antt =====
-- What disabling an account does to its sessions.
use loglens_api.Base.{
  ◌≡◌, ◌≢◌, refl, sym, Bool, false, Option, none, some, inl, inr, Bool-cases, arith, ap, ◌∙◌,
  if◌then◌else◌, ◌==◌, ==_refl,
}
use loglens_api.Text.{Text}
use loglens_api.Text.Decimal.{ℤ}
use loglens_api.Table.{find_first, update_where}
use loglens_api.Table.Laws.{find_first-update_where}
use loglens_api.Models.{User, Instant, RefreshToken}
use loglens_api.Effect.{Env, World, ok}
use loglens_api.Repositories.Users as user_repo
use loglens_api.Repositories.Users.{same_id}
use loglens_api.Auth.{TokenResponse, refresh_session}
use loglens_api.Auth.Tokens.{presented}
use loglens_api.Auth.Accepts.{refresh_session-ok}
use loglens_api.Users.{update_user_status}

abbrev pub with_status : Bool → Instant → User → User
with_status is_active now u = record u { is_active = is_active; updated_at = now }

module _ (env : Env) (z : ℤ) (is_active : Bool) (w : World env) {u : User} where
  -- Changing the status of a user that is there: the answer and the row show it, no other table and no
  -- other row changes, and it is committed.
  pub update_user_status-saves :
      find_first (λ u. same_id u.id z) w.working.users ≡ some u
      → let (answer, w') = update_user_status env z is_active w in
        (answer ≡ ok (with_status is_active w.transaction_time u))
        × (w'.working ≡ record w.working {
          users =
              update_where
                (λ v. v.id == u.id)
                (with_status is_active w.transaction_time)
                w.working.users;
        })
        × (w'.committed ≡ w'.working)
  unfolding update_user_status user_repo.get_by_id user_repo.update_status
  update_user_status-saves found = rw found (refl, refl, refl)

  -- The user that is found for the id afterwards has the new status.
  pub status_after :
      find_first (λ u. same_id u.id z) w.working.users ≡ some u
      → find_first (λ u. same_id u.id z) (update_user_status env z is_active w).1.working.users
        ≡ some (with_status is_active w.transaction_time u)
  status_after found =
      let (answer, table, committed) = update_user_status-saves found in
      ap (λ d. find_first (λ u. same_id u.id z) d.users) table
      ∙ find_first-update_where (λ v. v.id == u.id) (λ u. same_id u.id z)
          (with_status is_active w.transaction_time) w.working.users keeps
      ∙ rw (found, ==_refl u.id) refl
    where
      keeps :
          (v : User)
          → same_id (if v.id == u.id then with_status is_active w.transaction_time v else v).id z
            ≡ same_id v.id z
      keeps v = elim (Bool-cases (v.id == u.id)) [ inl e ↦ rw e refl | inr e ↦ rw e refl ]

abbrev claimed_user : Option (RefreshToken × ℤ × Text) → ℤ → ℤ
claimed_user none z = z
claimed_user (some (t, user_id, family_id)) z = user_id

-- Once an account is disabled, no refresh token issued to it is exchanged.
pub update_user_status-ends_sessions :
    (env : Env) (z : ℤ) (w : World env) (token : Text) {u : User} {t : RefreshToken}
    {family_id : Text} {answer : TokenResponse}
    → find_first (λ u. same_id u.id z) w.working.users ≡ some u
    → presented env token (update_user_status env z false w).1 ≡ some (t, z, family_id)
    → (refresh_session env token (update_user_status env z false w).1).0 ≢ ok answer
update_user_status-ends_sessions env z w token {u} {t} {family_id} found shown h =
    let may = refresh_session-ok env token (update_user_status env z false w).1 h in
    let after = status_after env z false w found in
    let same_user : z ≡ may.user_id = ap (λ o. claimed_user o z) (sym shown ∙ may.is_presented) in
    let owner : some may.user ≡ some (with_status false w.transaction_time u) =
      sym may.owner ∙ rw (← same_user) after in
    absurd (ground (arith, owner, may.enabled))
