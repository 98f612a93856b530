-- ===== src/Users.antt =====
-- app/services/users.py: what an administrator does to the accounts.
pub mod Disabling
use loglens_api.Base.{Bool, Option, none, some, List}
use loglens_api.Text.{codes}
use loglens_api.Text.Decimal.{ℤ}
use loglens_api.Models.{User}
use loglens_api.Models.Enums.{UserRole}
use loglens_api.Errors.{not_found}
use loglens_api.Effect.{Env, Action, ok, err, pure, or_raise, ◌>>=◌, ◌>>◌, commit}
use loglens_api.Repositories.Users as user_repo

module _ (env : Env) where
  unfoldable pub list_users : Action env (List User)
  list_users = user_repo.list_users

  unfoldable pub get_user_by_id : ℤ → Action env User
  get_user_by_id user_id = do
    user ← user_repo.get_by_id user_id
    or_raise user (not_found (codes "User"))

  unfoldable pub update_user_role : ℤ → UserRole → Action env User
  update_user_role user_id role = do
    found ← user_repo.get_by_id user_id
    user ← or_raise found (not_found (codes "User"))
    updated_user ← user_repo.update_role user role
    commit
    pure updated_user

  unfoldable pub update_user_status : ℤ → Bool → Action env User
  update_user_status user_id is_active = do
    found ← user_repo.get_by_id user_id
    user ← or_raise found (not_found (codes "User"))
    updated_user ← user_repo.update_status user is_active
    commit
    pure updated_user
