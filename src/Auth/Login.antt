-- ===== src/Auth/Login.antt =====
-- `AuthService.login_user`: who is let in, what a refusal shows, and what it writes.
use loglens_api.Base.{
  ℕ, ◌+◌, ◌*◌, ◌/◌, ◌≡◌, ◌⊎◌, true, false, Option, none, some, inl, inr, Option-cases, arith,
}
use loglens_api.Text.{Text, codes}
use loglens_api.Text.Decimal.{str}
use loglens_api.Table.{find_first, insert_row}
use loglens_api.Models.{User, RefreshToken}
use loglens_api.Clock.{aware}
use loglens_api.Errors.{app_error, bad_credentials, rate_limit_exceeded_error, inactive_user_error}
use loglens_api.Effect.{str_claim, Env, World, ok, err, verified, mismatch}
use loglens_api.Security.{
  access_kind, second, access_signing_key, refresh_signing_key, refresh_claims, minute,
  create_access_token, create_refresh_token, verify_password,
}
use loglens_api.RateLimit.{Limiter, is_allowed, add_failure, clear}
use loglens_api.Repositories.Users.{has_email, get_by_email}
use loglens_api.Repositories.RefreshTokens.{has_jti_hash, new_token, create_token}
use loglens_api.Auth.{LoginRequest, TokenResponse, normalize_email, issue_token_pair, login_user}

-- The limiter's methods change Redis and nothing else.
abbrev SameTables : {env : Env} → World env → World env → Type 0
SameTables w w' =
    (w'.committed ≡ w.committed)
    × (w'.working ≡ w.working)
    × (w'.sequences ≡ w.sequences)
    × (w'.transaction_time ≡ w.transaction_time)
    × (w'.readings ≡ w.readings)
    × (w'.draws ≡ w.draws)

is_allowed-SameTables :
    (env : Env) (l : Limiter) (key : Text) (w : World env) → SameTables w (is_allowed env l key w).1
unfolding is_allowed
is_allowed-SameTables env l key w = ground arith

add_failure-SameTables :
    (env : Env) (l : Limiter) (key : Text) (w : World env)
    → SameTables w (add_failure env l key w).1
unfolding add_failure
add_failure-SameTables env l key w = ground arith

add_failure-ok :
    (env : Env) (l : Limiter) (key : Text) (w : World env) → (add_failure env l key w).0 ≡ ok tt
unfolding add_failure
add_failure-ok env l key w = ground arith

clear-ok : (env : Env) (l : Limiter) (key : Text) (w : World env) → (clear env l key w).0 ≡ ok tt
unfolding clear
clear-ok env l key w = ground arith

clear-SameTables :
    (env : Env) (l : Limiter) (key : Text) (w : World env) → SameTables w (clear env l key w).1
unfolding clear
clear-SameTables env l key w = ground arith

module _ (env : Env) (l : Limiter) (payload : LoginRequest) (key : Text) (w : World env) where
  -- The state after the limiter was asked.
  abbrev asked : World env
  asked = (is_allowed env l key w).1

  abbrev pub account_of : Option User
  account_of = find_first (has_email (normalize_email payload.email)) w.working.users

  -- A limited client is refused at once: no row is looked at and no failure is counted.
  pub login_user-limited :
      (is_allowed env l key w).0 ≡ ok false
      → login_user env l payload key w ≡ (err (app_error rate_limit_exceeded_error), asked)
  unfolding login_user
  login_user-limited limited = ground arith

  -- An unknown address and a wrong password are told apart neither by the error nor by the state:
  -- both count one failure and write nothing.
  pub login_user-refused :
      (is_allowed env l key w).0 ≡ ok true
      → ((account_of ≡ none)
          ⊎ ((u : User) × (account_of ≡ some u)
              × (env.argon2_verify u.password_hash payload.password ≡ mismatch)))
      → let (r, w') = login_user env l payload key w in
        (r ≡ err bad_credentials)
        × (w' ≡ (add_failure env l key asked).1)
        × (w'.committed ≡ w.committed)
        × (w'.working ≡ w.working)
  unfolding login_user get_by_email verify_password
  login_user-refused allowed (inl unknown) = ground (
    arith,
    is_allowed-SameTables env l key w,
    add_failure-ok env l key asked,
    add_failure-SameTables env l key asked,
  )
  login_user-refused allowed (inr (u, known, wrong)) = ground (
    arith,
    is_allowed-SameTables env l key w,
    add_failure-ok env l key asked,
    add_failure-SameTables env l key asked,
  )

  -- The right password of a disabled account: the failure is not counted, nor the counter cleared.
  pub login_user-disabled :
      (u : User)
      → (is_allowed env l key w).0 ≡ ok true
      → account_of ≡ some u
      → env.argon2_verify u.password_hash payload.password ≡ verified
      → u.is_active ≡ false
      → login_user env l payload key w ≡ (err (app_error inactive_user_error), asked)
  unfolding login_user get_by_email verify_password
  login_user-disabled u allowed known right disabled =
      ground (arith, is_allowed-SameTables env l key w)

  -- The row that a login adds: a family of its own, not yet revoked.
  abbrev pub first_token : ℕ → RefreshToken
  first_token user_id =
      new_token w.sequences.next_token w.transaction_time user_id (env.sha256 (env.uuid4 w.draws))
        (env.uuid4 (w.draws + 1))
        (aware
          (env.clock (w.readings + 1) + env.settings.jwt_refresh_token_expire_minutes * minute))

  -- The pair of tokens that a login answers with.
  abbrev pub login_answer : ℕ → TokenResponse
  login_answer user_id = record {
    access_token =
        env.jwt_encode
          (record {
            sub = some (str_claim (str user_id));
            kind = some (str_claim access_kind);
            jti = none;
            family_id = none;
            exp =
                some (env.clock w.readings + env.settings.jwt_access_token_expire_minutes * minute);
          })
          (access_signing_key env) env.settings.jwt_algorithm;
    refresh_token =
        env.jwt_encode
          (refresh_claims env (str user_id) (env.uuid4 w.draws) (env.uuid4 (w.draws + 1))
            (env.clock (w.readings + 1) + env.settings.jwt_refresh_token_expire_minutes * minute))
          (refresh_signing_key env) env.settings.jwt_algorithm;
    token_type = codes "bearer";
    expires_in_seconds = env.settings.jwt_access_token_expire_minutes * minute / second;
    refresh_expires_in_seconds = env.settings.jwt_refresh_token_expire_minutes * minute / second;
  }

  issue_first :
      (u : User) (v : World env)
      → SameTables w v
      → find_first (has_jti_hash (env.sha256 (env.uuid4 w.draws))) w.working.refresh_tokens ≡ none
      → let (r, v') = issue_token_pair env u none v in
        (r ≡ ok (login_answer u.id))
        × (v'.working.refresh_tokens ≡ insert_row (first_token u.id) w.working.refresh_tokens)
        × (v'.working.users ≡ w.working.users)
  unfolding issue_token_pair create_access_token create_refresh_token create_token
  issue_first u v same fresh = ground arith

  -- The right password of an enabled account opens a session: one row is added, of a new family,
  -- and committed.
  pub login_user-opens_session :
      (u : User)
      → (is_allowed env l key w).0 ≡ ok true
      → account_of ≡ some u
      → env.argon2_verify u.password_hash payload.password ≡ verified
      → u.is_active ≡ true
      → find_first (has_jti_hash (env.sha256 (env.uuid4 w.draws))) w.working.refresh_tokens ≡ none
      → let (r, w') = login_user env l payload key w in
        (r ≡ ok (login_answer u.id))
        × (w'.committed.refresh_tokens ≡ insert_row (first_token u.id) w.working.refresh_tokens)
        × (w'.committed.users ≡ w.working.users)
  unfolding login_user get_by_email verify_password
  login_user-opens_session u allowed known right enabled fresh = ground (
    arith,
    is_allowed-SameTables env l key w,
    clear-ok env l key asked,
    clear-SameTables env l key asked,
    issue_first u (clear env l key asked).1,
  )

  -- Whoever is let in was allowed by the limiter and has an enabled account whose hash verifies.
  pub login_user-ok :
      {answer : TokenResponse}
      → (login_user env l payload key w).0 ≡ ok answer
      → ((is_allowed env l key w).0 ≡ ok true)
        × ((u : User) × (account_of ≡ some u)
            × (env.argon2_verify u.password_hash payload.password ≡ verified)
            × (u.is_active ≡ true))
  unfolding login_user get_by_email verify_password
  login_user-ok h = elim (Option-cases account_of) [
    | inl e ↦ absurd (ground (arith, is_allowed-SameTables env l key w))
    | inr (u, e) ↦ (
      ground arith,
      (
        u,
        e,
        ground (arith, is_allowed-SameTables env l key w),
        ground (arith, is_allowed-SameTables env l key w),
      ),
    )
  ]
