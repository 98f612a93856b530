-- ===== src/Auth/Accepts.antt =====
-- What a successful refresh shows, and so when a token can no longer be exchanged.
use native.Mathlib.Decide.{dec_lt}
use loglens_api.Base.{
  ◌+◌, ◌≤◌, ◌<◌, ◌≡◌, ◌≢◌, true, false, none, some, inl, inr, Bool-cases, Option-cases, arith,
}
use loglens_api.Text.{Text, text_eq}
use loglens_api.Text.Decimal.{ℤ}
use loglens_api.Table.{find_first}
use loglens_api.Table.Laws.{find_first-All}
use loglens_api.Clock.{as_utc_aware}
use loglens_api.Models.{Instant, RefreshToken, User}
use loglens_api.Errors.{Error, overflow_error, bad_credentials}
use loglens_api.Effect.{Env, World, Result, ok, err}
use loglens_api.Repositories.RefreshTokens.{has_jti_hash, is_active, revoke_token, revoke_family}
use loglens_api.Repositories.Users.{same_id, get_by_id}
use loglens_api.Auth.{TokenResponse, rotate, refresh_session}
use loglens_api.Auth.Tokens.{presented, presented_row, get_refresh_token_record-presented}
use loglens_api.Auth.Refresh.{
  FamilyIsClosed, refresh_session-expired, refresh_session-revoked, refresh_session-rotate,
}

-- What a successful refresh shows: the token had a row, which was active and had not expired, and its
-- user is there and enabled.
pub record MayRefresh (env : Env) (token : Text) (w : World env) : Type 0 where
  pub row : RefreshToken
  pub user_id : ℤ
  pub family_id : Text
  pub expiry : Instant
  pub user : User
  pub is_presented : presented env token w ≡ some (row, user_id, family_id)
  pub expires : as_utc_aware row.expires_at ≡ some expiry
  pub unexpired : env.clock (w.readings + 1) < expiry
  pub unrevoked : is_active row ≡ true
  pub owner : find_first (λ u. same_id u.id user_id) w.working.users ≡ some user
  pub enabled : user.is_active ≡ true

rotate-ok :
    (env : Env) (t : RefreshToken) (user_id : ℤ) (family_id : Text) (now : Instant) (w : World env)
    {answer : TokenResponse}
    → (rotate env t user_id family_id now w).0 ≡ ok answer
    → (u : User) × (find_first (λ u. same_id u.id user_id) w.working.users ≡ some u)
      × (u.is_active ≡ true)
unfolding rotate get_by_id
rotate-ok env t user_id family_id now w h =
    elim (Option-cases (find_first (λ u. same_id u.id user_id) w.working.users)) [
      | inl e ↦ absurd (ground arith)
      | inr (u, e) ↦ (u, e, ground arith)
    ]

refresh_session-unknown :
    (env : Env) (token : Text) (w : World env)
    → presented env token w ≡ none
    → (refresh_session env token w).0 ≡ err bad_credentials
unfolding refresh_session
refresh_session-unknown env token w e =
    ground (arith, get_refresh_token_record-presented env token w)

refresh_session-overflow :
    (env : Env) (token : Text) (w : World env) {t : RefreshToken} {user_id : ℤ} {family_id : Text}
    → presented env token w ≡ some (t, user_id, family_id)
    → as_utc_aware t.expires_at ≡ none
    → (refresh_session env token w).0 ≡ err overflow_error
unfolding refresh_session
refresh_session-overflow env token w found e =
    ground (arith, get_refresh_token_record-presented env token w)

refresh_session-late :
    (env : Env) (token : Text) (w : World env) {t : RefreshToken} {user_id : ℤ} {family_id : Text}
    → presented env token w ≡ some (t, user_id, family_id)
    → (x : Instant) → as_utc_aware t.expires_at ≡ some x
    → x ≤ env.clock (w.readings + 1)
    → (refresh_session env token w).0 ≡ err bad_credentials
unfolding revoke_token
refresh_session-late env token w found x ex late =
    rw (refresh_session-expired env token w found x ex late)

refresh_session-inactive :
    (env : Env) (token : Text) (w : World env) {t : RefreshToken} {user_id : ℤ} {family_id : Text}
    → presented env token w ≡ some (t, user_id, family_id)
    → (x : Instant) → as_utc_aware t.expires_at ≡ some x
    → env.clock (w.readings + 1) < x
    → is_active t ≡ false
    → (refresh_session env token w).0 ≡ err bad_credentials
unfolding revoke_family
refresh_session-inactive env token w {t} found x ex lt closed_before =
    rw (refresh_session-revoked env token w found x ex lt closed_before) (ground arith)

err-ne-ok {ℓ} : {A : Type ℓ} {r : Result A} {e : Error} {a : A} → r ≡ err e → r ≡ ok a → ⊥
err-ne-ok p q = cc

-- A refresh succeeds only for a presented token whose row is unrevoked and unexpired, and whose
-- user is there and enabled.
pub refresh_session-ok :
    (env : Env) (token : Text) (w : World env) {answer : TokenResponse}
    → (refresh_session env token w).0 ≡ ok answer
    → MayRefresh env token w
refresh_session-ok env token w h = elim (Option-cases (presented env token w)) [
  | inl e ↦ absurd (err-ne-ok (refresh_session-unknown env token w e) h)
  | inr ((t, user_id, family_id), found) ↦ elim (Option-cases (as_utc_aware t.expires_at)) [
    | inl o ↦ absurd (err-ne-ok (refresh_session-overflow env token w found o) h)
    | inr (x, ex) ↦ elim (dec_lt (env.clock (w.readings + 1)) x) [
      | no late ↦ absurd (err-ne-ok (refresh_session-late env token w found x ex (omega arith)) h)
      | yes lt ↦ elim (Bool-cases (is_active t)) [
        | inr b ↦ absurd (err-ne-ok (refresh_session-inactive env token w found x ex lt b) h)
        | inl b ↦
            let (u, owner, enabled) =
              rotate-ok env t user_id family_id _ _
                (rw (refresh_session-rotate env token w found x ex lt b) at h) in
            record {
              row = t;
              user_id = user_id;
              family_id = family_id;
              expiry = x;
              user = u;
              is_presented = found;
              expires = ex;
              unexpired = lt;
              unrevoked = b;
              owner = owner;
              enabled = enabled;
            }
      ]
    ]
  ]
]

-- In a state where every token of a family is revoked, no token of it is exchanged.
pub refresh_session-closed_family :
    (env : Env) (token : Text) (w : World env) (family : Text) {t : RefreshToken} {user_id : ℤ}
    {family_id : Text} {answer : TokenResponse}
    → FamilyIsClosed family w.working.refresh_tokens
    → presented env token w ≡ some (t, user_id, family_id)
    → text_eq t.family_id family ≡ true
    → (refresh_session env token w).0 ≢ ok answer
refresh_session-closed_family env token w family {t} shut found member h =
    let may = refresh_session-ok env token w h in
    let (hash, row) = presented_row env token w found in
    let revoked_before =
      find_first-All _ (has_jti_hash hash) w.working.refresh_tokens shut row member in
    ground arith
