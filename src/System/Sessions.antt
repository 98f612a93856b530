-- ===== src/System/Sessions.antt =====
-- The authentication service and the checks of a request keep the tables sound.
use loglens_api.Base.{ℕ, Option, none, some}
use loglens_api.Text.{Text}
use loglens_api.Text.Decimal.{ℤ}
use loglens_api.Models.{User, RefreshToken, Instant}
use loglens_api.Errors.{Error, AppError}
use loglens_api.Effect.{Env}
use loglens_api.Effect.Keeps.{Keeps}
use loglens_api.RateLimit.{Limiter}
use loglens_api.Users.{get_user_by_id}
use loglens_api.Auth.{
  LoginRequest, issue_token_pair, value_error_is_bad_credentials, get_refresh_token_record,
  integrity_error_is_duplicate, register_new, register_user, login_failed, login_as, login_found,
  login_user, reject_expired, reject_revoked, rotate, refresh_session, logout, logout_all,
}
use loglens_api.Authorization.{
  value_error_is_unauthenticated, not_found_is_unauthenticated, get_current_user,
  require_admin_user, require_developer_or_admin,
}
use loglens_api.Api.Guards.{Requirement, bearer_token, check, admit}
use loglens_api.System.Sound.{IsSound}
use loglens_api.System.Accounts.{create_user-IsSound}
use loglens_api.System.Tokens.{
  create_token-IsSound, revoke_token-IsSound, revoke_family-IsSound, revoke_all_for_user-IsSound,
}
use loglens_api.System.Reads.{read_rules, security_rules}

ruleset auth_rules = (
  read_rules, security_rules, create_user-IsSound, create_token-IsSound, revoke_token-IsSound,
  revoke_family-IsSound, revoke_all_for_user-IsSound,
)

module _ (env : Env) where
  issue_token_pair-IsSound :
      (user : User) (family : Option Text) → Keeps IsSound (issue_token_pair env user family)
  unfolding issue_token_pair
  issue_token_pair-IsSound user family = search auth_rules

  bad_credentials-IsSound :
      {A : Type 0} (e : Error) → Keeps IsSound (value_error_is_bad_credentials env {A = A} e)
  bad_credentials-IsSound Error.value_error = search auth_rules
  bad_credentials-IsSound _ = search auth_rules

  get_refresh_token_record-IsSound :
      (token : Text) → Keeps IsSound (get_refresh_token_record env token)
  unfolding get_refresh_token_record
  get_refresh_token_record-IsSound token = search (auth_rules, bad_credentials-IsSound) depth 7

  duplicate-IsSound : (e : Error) → Keeps IsSound (integrity_error_is_duplicate env e)
  duplicate-IsSound Error.integrity_error = search auth_rules
  duplicate-IsSound _ = search auth_rules

  register_new-IsSound : (email password : Text) → Keeps IsSound (register_new env email password)
  unfolding register_new
  register_new-IsSound email password = search (auth_rules, duplicate-IsSound) depth 7

  pub register_user-IsSound :
      (email password : Text) → Keeps IsSound (register_user env email password)
  unfolding register_user
  register_user-IsSound email password = search (auth_rules, register_new-IsSound)

  login_failed-IsSound : (l : Limiter) (key : Text) → Keeps IsSound (login_failed env l key)
  login_failed-IsSound l key = search auth_rules

  login_as-IsSound :
      (l : Limiter) (key : Text) (user : User) → Keeps IsSound (login_as env l key user)
  login_as-IsSound l key user = search (auth_rules, issue_token_pair-IsSound) depth 7

  login_found-IsSound :
      (l : Limiter) (key password : Text) (user : Option User)
      → Keeps IsSound (login_found env l key password user)
  login_found-IsSound l key password none = login_failed-IsSound l key
  login_found-IsSound l key password (some user) =
      search (auth_rules, login_failed-IsSound, login_as-IsSound) depth 7

  pub login_user-IsSound :
      (l : Limiter) (payload : LoginRequest) (key : Text)
      → Keeps IsSound (login_user env l payload key)
  unfolding login_user
  login_user-IsSound l payload key = search (auth_rules, login_found-IsSound) depth 7

  rotate-IsSound :
      (t : RefreshToken) (user_id : ℤ) (family : Text) (now : Instant)
      → Keeps IsSound (rotate env t user_id family now)
  unfolding rotate
  rotate-IsSound t user_id family now = search auth_rules depth 12

  reject_expired-IsSound :
      (t : RefreshToken) (now : Instant) → Keeps IsSound (reject_expired env t now)
  reject_expired-IsSound t now = search auth_rules

  reject_revoked-IsSound :
      (t : RefreshToken) (now : Instant) → Keeps IsSound (reject_revoked env t now)
  reject_revoked-IsSound t now = search auth_rules depth 7

  pub refresh_session-IsSound : (token : Text) → Keeps IsSound (refresh_session env token)
  unfolding refresh_session
  refresh_session-IsSound token =
      search
        (
          auth_rules, get_refresh_token_record-IsSound, rotate-IsSound, reject_expired-IsSound,
          reject_revoked-IsSound,
        )
        depth 8

  pub logout-IsSound : (token : Text) → Keeps IsSound (logout env token)
  unfolding logout
  logout-IsSound token = search (auth_rules, get_refresh_token_record-IsSound) depth 8

  pub logout_all-IsSound : (user_id : ℕ) → Keeps IsSound (logout_all env user_id)
  unfolding logout_all
  logout_all-IsSound user_id = search auth_rules

  get_user_by_id-IsSound : (z : ℤ) → Keeps IsSound (get_user_by_id env z)
  unfolding get_user_by_id
  get_user_by_id-IsSound z = search auth_rules

  unauthenticated-IsSound : (e : Error) → Keeps IsSound (value_error_is_unauthenticated env e)
  unauthenticated-IsSound Error.value_error = search auth_rules
  unauthenticated-IsSound _ = search auth_rules

  not_found-IsSound : (e : Error) → Keeps IsSound (not_found_is_unauthenticated env e)
  not_found-IsSound (Error.app_error (AppError.not_found_error r)) = search auth_rules
  not_found-IsSound _ = search auth_rules

  get_current_user-IsSound : (token : Text) → Keeps IsSound (get_current_user env token)
  unfolding get_current_user
  get_current_user-IsSound token =
      search (auth_rules, get_user_by_id-IsSound, unauthenticated-IsSound, not_found-IsSound) depth
        8

  check-IsSound : (q : Requirement) (token : Text) → Keeps IsSound (check env q token)
  unfolding require_admin_user require_developer_or_admin
  check-IsSound Requirement.authenticated token = get_current_user-IsSound token
  check-IsSound Requirement.developer_or_admin token = search (auth_rules, get_current_user-IsSound)
  check-IsSound Requirement.admin_only token = search (auth_rules, get_current_user-IsSound)

  bearer_token-IsSound : (bearer : Option Text) → Keeps IsSound (bearer_token env bearer)
  bearer_token-IsSound none = search auth_rules
  bearer_token-IsSound (some token) = search auth_rules

  -- The check of a route's requirement.
  pub admit-IsSound : (q : Requirement) (bearer : Option Text) → Keeps IsSound (admit env q bearer)
  unfolding admit
  admit-IsSound q bearer = search (auth_rules, bearer_token-IsSound, check-IsSound)
