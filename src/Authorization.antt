-- ===== src/Authorization.antt =====
-- app/api/dependencies/auth.py: who a bearer token stands for, and what roles may pass.
pub mod Roles
pub mod Bearer
use loglens_api.Base.{◌++◌, Bool, true, false, not, Option, none, some}
use loglens_api.Text.{Text, codes, strip, lower}
use loglens_api.Text.Decimal.{ℤ, parse_int}
use loglens_api.Models.{User}
use loglens_api.Models.Enums.{UserRole}
use loglens_api.Errors.{
  Error, app_error, authentication_error, authorization_error, not_found_error, value_error,
  bad_credentials,
}
use loglens_api.Effect.{Env, Action, ok, err, pure, raise, or_raise, raise_if, catch, ◌>>=◌, ◌>>◌}
use loglens_api.Security.{decode_access_token}
use loglens_api.Users.{get_user_by_id}

abbrev pub is_admin : UserRole → Bool
is_admin UserRole.admin = true
is_admin UserRole.developer = false

-- The role is one of the two, which are all there are.
abbrev pub may_develop : UserRole → Bool
may_develop UserRole.admin = true
may_develop UserRole.developer = true

-- `request.client` may be missing.
unfoldable pub build_login_rate_limit_key : Option Text → Text → Text
build_login_rate_limit_key host email = client_host host ++ (codes ":" ++ lower (strip email))
  where
    client_host : Option Text → Text
    client_host none = codes "unknown"
    client_host (some h) = h

module _ (env : Env) where
  abbrev pub token_user_id : Text → Action env ℤ
  token_user_id token = do sub ← decode_access_token env token; or_raise (parse_int sub) value_error

  -- `except (ValueError, TypeError)`
  abbrev pub value_error_is_unauthenticated : Error → Action env ℤ
  value_error_is_unauthenticated value_error = raise bad_credentials
  value_error_is_unauthenticated e = raise e

  -- `except NotFoundError`
  abbrev pub not_found_is_unauthenticated : Error → Action env User
  not_found_is_unauthenticated (app_error (not_found_error r)) = raise bad_credentials
  not_found_is_unauthenticated e = raise e

  unfoldable pub get_current_user : Text → Action env User
  get_current_user token = do
    user_id ← catch (token_user_id token) value_error_is_unauthenticated
    user ← catch (get_user_by_id env user_id) not_found_is_unauthenticated
    raise_if (not user.is_active) (app_error (authentication_error (codes "Inactive user.")))
    pure user

  unfoldable pub require_admin_user : Text → Action env User
  require_admin_user token = do
    current_user ← get_current_user token
    raise_if (not (is_admin current_user.role))
        (app_error (authorization_error (codes "Admin privileges required.")))
    pure current_user

  unfoldable pub require_developer_or_admin : Text → Action env User
  require_developer_or_admin token = do
    current_user ← get_current_user token
    raise_if (not (may_develop current_user.role))
        (app_error (authorization_error (codes "Developer or admin privileges required.")))
    pure current_user
