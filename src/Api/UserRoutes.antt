-- ===== src/Api/UserRoutes.antt =====
-- app/api/routes/users.py: each route.
use loglens_api.Base.{Bool, Option, map}
use loglens_api.Text.{Text}
use loglens_api.Effect.{Env, Action, pure, ◌>>=◌}
use loglens_api.Users as user_service
use loglens_api.Text.Decimal.{ℤ}
use loglens_api.Models.Enums.{UserRole}
use loglens_api.Api.{Body, to_user_response}
use loglens_api.Api.Guards.{Requirement, admitted}

module _ (env : Env) where
  unfoldable pub list_users_route : Option Text → Action env Body
  list_users_route bearer = admitted env Requirement.admin_only bearer (λ _. do
    users ← user_service.list_users env
    pure (Body.user_list (map to_user_response users)))

  unfoldable pub update_user_role_route : Option Text → ℤ → UserRole → Action env Body
  update_user_role_route bearer user_id role = admitted env Requirement.admin_only bearer (λ _. do
    user ← user_service.update_user_role env user_id role
    pure (Body.user_body (to_user_response user)))

  unfoldable pub update_user_status_route : Option Text → ℤ → Bool → Action env Body
  update_user_status_route bearer user_id is_active =
      admitted env Requirement.admin_only bearer (λ _. do
        user ← user_service.update_user_status env user_id is_active
        pure (Body.user_body (to_user_response user)))
