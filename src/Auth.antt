-- ===== src/Auth.antt =====
-- app/services/auth.py: registration, login, and sessions of rotating refresh tokens.
pub mod Tokens
pub mod Refresh
pub mod Rotation
pub mod Accepts
pub mod Logout
pub mod Register
pub mod Login
use loglens_api.Base.{
  ℕ, ◌+◌, Bool, true, false, not, ◌||◌, Option, none, some, leb, ◌==◌, if◌then◌else◌,
}
use loglens_api.Text.{Text, codes, strip, lower}
use loglens_api.Text.Decimal.{ℤ, pos, negsuc, str, parse_int}
use loglens_api.Clock.{as_utc_aware, aware}
use loglens_api.Models.{Instant, User, RefreshToken}
use loglens_api.Models.Enums.{UserRole}
use loglens_api.Errors.{
  Error, app_error, bad_credentials, value_error, overflow_error, integrity_error,
  duplicate_email_error, inactive_user_error, rate_limit_exceeded_error,
}
use loglens_api.Effect.{
  Env, World, Action, ok, err, pure, raise, or_raise, raise_if, ◌>>=◌, ◌>>◌, utc_now, commit,
  rollback, catch,
}
use loglens_api.Security.{
  RefreshTokenData, RefreshClaims, hash_password, verify_password, create_access_token,
  create_refresh_token, decode_refresh_token, hash_refresh_token_identifier,
}
use loglens_api.Repositories.Users as user_repo
use loglens_api.Repositories.Users.{same_id, is_some}
use loglens_api.Repositories.RefreshTokens as token_repo
use loglens_api.RateLimit.{Limiter, is_allowed, add_failure, clear}

-- app/schemas/auth.py
pub record TokenResponse : Type 0 where
  pub access_token : Text
  pub refresh_token : Text
  pub token_type : Text
  pub expires_in_seconds : ℕ
  pub refresh_expires_in_seconds : ℕ

pub record LoginRequest : Type 0 where
  pub email : Text
  pub password : Text

-- `payload.email.strip().lower()`
unfoldable pub normalize_email : Text → Text
normalize_email email = lower (strip email)

abbrev bearer : Text
bearer = codes "bearer"

module _ (env : Env) where
  unfoldable pub issue_token_pair : User → Option Text → Action env TokenResponse
  issue_token_pair user family_id = do
    (access_token, access_expires_in_seconds) ← create_access_token env (str user.id)
    refresh ← create_refresh_token env (str user.id) family_id
    token_repo.create_token user.id (hash_refresh_token_identifier env refresh.jti)
        refresh.family_id (aware refresh.expires_at)
    pure (record {
      access_token = access_token;
      refresh_token = refresh.token;
      token_type = bearer;
      expires_in_seconds = access_expires_in_seconds;
      refresh_expires_in_seconds = refresh.expires_in_seconds;
    })

  -- `except (ValueError, TypeError): raise AuthenticationError()`
  abbrev pub value_error_is_bad_credentials : {A : Type 0} → Error → Action env A
  value_error_is_bad_credentials value_error = raise bad_credentials
  value_error_is_bad_credentials e = raise e

  abbrev pub decode_user_id : Text → Action env (RefreshClaims × ℤ)
  decode_user_id refresh_token = do
    payload ← decode_refresh_token env refresh_token
    user_id ← or_raise (parse_int payload.sub) value_error
    pure (payload, user_id)

  abbrev pub owned_by : ℤ → Option RefreshToken → Option RefreshToken
  owned_by user_id none = none
  owned_by user_id (some t) = if same_id t.user_id user_id then some t else none

  -- The record, the user's id and the family of a presented token.
  unfoldable pub get_refresh_token_record : Text → Action env (RefreshToken × ℤ × Text)
  get_refresh_token_record refresh_token = do
    (payload, user_id) ← catch (decode_user_id refresh_token) value_error_is_bad_credentials
    found ← token_repo.get_by_jti_hash (hash_refresh_token_identifier env payload.jti)
    token_record ← or_raise (owned_by user_id found) bad_credentials
    pure (token_record, user_id, payload.family_id)

  -- `except IntegrityError`
  abbrev pub integrity_error_is_duplicate : Error → Action env User
  integrity_error_is_duplicate integrity_error = do
    rollback
    raise (app_error duplicate_email_error)
  integrity_error_is_duplicate e = raise e

  -- The part of `register_user` after the look-up: another session may have committed in between.
  unfoldable pub register_new : Text → Text → Action env User
  register_new normalized_email password = do
    password_hash ← hash_password env password
    user ←
        catch (user_repo.create_user normalized_email password_hash UserRole.developer true)
          integrity_error_is_duplicate
    commit
    pure user

  unfoldable pub register_user : Text → Text → Action env User
  unfolding register_new
  register_user email password = do
    let normalized_email = normalize_email email
    existing_user ← user_repo.get_by_email normalized_email
    raise_if (is_some existing_user) (app_error duplicate_email_error)
    register_new normalized_email password

  -- `user is None or not verify_password(...)`; the hash is looked at only if there is a user.
  abbrev pub password_fails : Text → Option User → Action env Bool
  password_fails password none = pure true
  password_fails password (some user) = do
    fits ← verify_password env password user.password_hash
    pure (not fits)

  abbrev pub login_failed : Limiter → Text → Action env TokenResponse
  login_failed limiter rate_limit_key = do
    add_failure env limiter rate_limit_key
    raise bad_credentials

  abbrev pub login_as : Limiter → Text → User → Action env TokenResponse
  login_as limiter rate_limit_key user = do
    raise_if (not user.is_active) (app_error inactive_user_error)
    clear env limiter rate_limit_key
    token_pair ← issue_token_pair user none
    commit
    pure token_pair

  abbrev pub login_found : Limiter → Text → Text → Option User → Action env TokenResponse
  login_found limiter rate_limit_key password none = login_failed limiter rate_limit_key
  login_found limiter rate_limit_key password (some user) = do
    fails ← password_fails password (some user)
    if fails then login_failed limiter rate_limit_key else login_as limiter rate_limit_key user

  unfoldable pub login_user : Limiter → LoginRequest → Text → Action env TokenResponse
  login_user limiter payload rate_limit_key = do
    allowed ← is_allowed env limiter rate_limit_key
    raise_if (not allowed) (app_error rate_limit_exceeded_error)
    user ← user_repo.get_by_email (normalize_email payload.email)
    login_found limiter rate_limit_key payload.password user

  -- The branches of `refresh_session`: an expired token, a revoked one, and a rotation.
  abbrev pub reject_expired : RefreshToken → Instant → Action env TokenResponse
  reject_expired token_record now = do
    token_repo.revoke_token token_record now none false
    commit
    raise bad_credentials

  abbrev pub reject_revoked : RefreshToken → Instant → Action env TokenResponse
  reject_revoked token_record now =
      if is_some token_record.replaced_by_jti_hash
      then (do
        token_repo.revoke_family token_record.family_id now true
        commit
        raise bad_credentials)
      else raise bad_credentials

  abbrev pub active_user : Option User → Option User
  active_user none = none
  active_user (some user) = if user.is_active then some user else none

  unfoldable pub rotate : RefreshToken → ℤ → Text → Instant → Action env TokenResponse
  rotate token_record user_id family_id now = do
    found ← user_repo.get_by_id user_id
    user ← or_raise (active_user found) bad_credentials
    next_refresh ← create_refresh_token env (str user.id) (some family_id)
    let next_jti_hash = hash_refresh_token_identifier env next_refresh.jti
    token_repo.revoke_token token_record now (some next_jti_hash) false
    token_repo.create_token user.id next_jti_hash family_id (aware next_refresh.expires_at)
    (access_token, access_expires_in_seconds) ← create_access_token env (str user.id)
    commit
    pure (record {
      access_token = access_token;
      refresh_token = next_refresh.token;
      token_type = bearer;
      expires_in_seconds = access_expires_in_seconds;
      refresh_expires_in_seconds = next_refresh.expires_in_seconds;
    })

  unfoldable pub refresh_session : Text → Action env TokenResponse
  refresh_session refresh_token = do
    (token_record, user_id, family_id) ← get_refresh_token_record refresh_token
    now ← utc_now
    expires_at ← or_raise (as_utc_aware token_record.expires_at) overflow_error
    if leb expires_at now
        then reject_expired token_record now
        else if is_some token_record.revoked_at
        then reject_revoked token_record now
        else rotate token_record user_id family_id now

  unfoldable pub logout : Text → Action env (Unit {0})
  logout refresh_token = do
    (token_record, _, _) ← get_refresh_token_record refresh_token
    if is_some token_record.revoked_at
        then pure tt
        else (do now ← utc_now; token_repo.revoke_token token_record now none false; commit)

  unfoldable pub logout_all : ℕ → Action env (Unit {0})
  logout_all user_id = do now ← utc_now; token_repo.revoke_all_for_user user_id now; commit
