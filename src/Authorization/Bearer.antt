-- ===== src/Authorization/Bearer.antt =====
-- The token that a login answers with, presented to a route.
use loglens_api.Base.{ℕ, ◌+◌, ◌*◌, ◌<◌, ◌≡◌, refl, true, none, some, arith}
use loglens_api.Text.{Text}
use loglens_api.Text.Decimal.{ℤ, pos, str, parse_int, parse_int-str}
use loglens_api.Text.Laws.{text_eq_refl}
use loglens_api.Table.{find_first}
use loglens_api.Models.{Instant, User}
use loglens_api.Effect.{Env, World, Claims, ok, str_claim, verified}
use loglens_api.Security.{
  access_kind, access_signing_key, access_subject, decode_access_token, minute,
}
use loglens_api.RateLimit.{Limiter, is_allowed}
use loglens_api.Repositories.Users as user_repo
use loglens_api.Repositories.Users.{same_id}
use loglens_api.Repositories.RefreshTokens.{has_jti_hash}
use loglens_api.Users.{get_user_by_id}
use loglens_api.Auth.{LoginRequest, TokenResponse, login_user}
use loglens_api.Auth.Login.{account_of, login_answer, login_user-opens_session}
use loglens_api.Authorization.{get_current_user}

get_current_user-runs :
    (env : Env) (token s : Text) (z : ℤ) (user : User) (v : World env)
    → access_subject env (
        env.jwt_decode
          (env.clock v.readings)
          token
          (access_signing_key env)
          env.settings.jwt_algorithm)
      ≡ some s
    → parse_int s ≡ some z
    → find_first (λ u. same_id u.id z) v.working.users ≡ some user
    → user.is_active ≡ true
    → (get_current_user env token v).0 ≡ ok user
unfolding get_current_user decode_access_token get_user_by_id user_repo.get_by_id
get_current_user-runs env token s z user v subject parsed found active = ground arith

-- The claims of an access token of a user, issued at a time.
abbrev pub access_claims : Env → ℕ → Instant → Claims
access_claims env user_id now = record {
  sub = some (str_claim (str user_id));
  kind = some (str_claim access_kind);
  jti = none;
  family_id = none;
  exp = some (now + env.settings.jwt_access_token_expire_minutes * minute);
}

module _ (env : Env) (l : Limiter) (payload : LoginRequest) (key : Text) (w : World env) where
  -- The access token of a login stands for the account that logged in: until it expires, and while the
  -- account is there and enabled, whoever presents it passes as that account. The JWT is decoded to
  -- its claims with the key it was encoded with, until it expires.
  pub login_user-authenticates :
      (u user : User) (v : World env)
      → let claims = access_claims env u.id (env.clock w.readings) in
        let until = env.clock w.readings + env.settings.jwt_access_token_expire_minutes * minute in
        ((now : Instant)
          → now < until
          → env.jwt_decode now
              (env.jwt_encode claims (access_signing_key env) env.settings.jwt_algorithm)
              (access_signing_key env)
              env.settings.jwt_algorithm
            ≡ some claims)
        → (is_allowed env l key w).0 ≡ ok true
        → account_of env l payload key w ≡ some u
        → env.argon2_verify u.password_hash payload.password ≡ verified
        → u.is_active ≡ true
        → find_first (has_jti_hash (env.sha256 (env.uuid4 w.draws))) w.working.refresh_tokens ≡ none
        → env.clock v.readings
          < env.clock w.readings + env.settings.jwt_access_token_expire_minutes * minute
        → find_first (λ a. same_id a.id (pos u.id)) v.working.users ≡ some user
        → user.is_active ≡ true
        → (answer : TokenResponse) × ((login_user env l payload key w).0 ≡ ok answer)
          × ((get_current_user env answer.access_token v).0 ≡ ok user)
  login_user-authenticates u user v decodes allowed known right enabled fresh in_time found active =
      let (answer, _, _) =
        login_user-opens_session env l payload key w u allowed known right enabled fresh in
      let decoded = decodes (env.clock v.readings) in_time in
      (
        login_answer env l payload key w u.id,
        answer,
        get_current_user-runs env (login_answer env l payload key w u.id).access_token (str u.id)
            (pos u.id) user v (rw decoded (rw (text_eq_refl access_kind) refl)) (parse_int-str u.id)
            found active,
      )
