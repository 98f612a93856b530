-- ===== src/Api/AuthRoutes.antt =====
-- app/api/routes/auth.py: each route.
use loglens_api.Base.{Option, none, some}
use loglens_api.Text.{Text}
use loglens_api.Errors.{bad_credentials}
use loglens_api.Effect.{Env, Action, pure, raise, ◌>>=◌, ◌>>◌}
use loglens_api.RateLimit.{login_rate_limiter}
use loglens_api.Authorization.{build_login_rate_limit_key}
use loglens_api.Auth.{LoginRequest}
use loglens_api.Auth as auth_service
use loglens_api.Api.{Body, to_user_response, to_authenticated_user, to_oauth2_token}
use loglens_api.Api.Guards.{Requirement, admitted}

module _ (env : Env) where
  -- `LoginRequest(...)`, whose `ValidationError` is one of the credentials.
  abbrev pub form_credentials : Text → Text → Action env LoginRequest
  form_credentials username password = elim (env.validate_login username password) [
    | none ↦ raise bad_credentials
    | some (email, given) ↦ pure (record { email = email; password = given })
  ]

  unfoldable pub register_route : Text → Text → Action env Body
  register_route email password = do
    user ← auth_service.register_user env email password
    pure (Body.user_body (to_user_response user))

  unfoldable pub login_route : Option Text → LoginRequest → Action env Body
  login_route host payload = do
    token ←
        auth_service.login_user env (login_rate_limiter env) payload
          (build_login_rate_limit_key host payload.email)
    pure (Body.login_body token)

  unfoldable pub login_for_access_token_route : Option Text → Text → Text → Action env Body
  login_for_access_token_route host username password = do
    credentials ← form_credentials username password
    token ←
        auth_service.login_user env (login_rate_limiter env) credentials
          (build_login_rate_limit_key host credentials.email)
    pure (Body.token_body (to_oauth2_token token))

  unfoldable pub refresh_route : Text → Action env Body
  refresh_route refresh_token = do
    token ← auth_service.refresh_session env refresh_token
    pure (Body.login_body token)

  unfoldable pub logout_route : Text → Action env Body
  logout_route refresh_token = do auth_service.logout env refresh_token; pure Body.logged_out

  unfoldable pub logout_all_route : Option Text → Action env Body
  logout_all_route bearer =
      admitted env Requirement.authenticated bearer
        (λ current_user. do auth_service.logout_all env current_user.id; pure Body.logged_out)

  unfoldable pub me_route : Option Text → Action env Body
  me_route bearer =
      admitted env Requirement.authenticated bearer
        (λ current_user. do pure (Body.me_body (to_authenticated_user current_user)))
