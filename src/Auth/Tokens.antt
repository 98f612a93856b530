-- ===== src/Auth/Tokens.antt =====
-- What a presented refresh token stands for: the row of `refresh_tokens`, its user and its family.
use loglens_api.Base.{
  ◌+◌, ◌≡◌, Bool, List, Bool-cases, Option, none, some, inl, inr, Option-cases, arith,
  if◌then◌else◌,
}
use loglens_api.Text.{Text}
use loglens_api.Text.Decimal.{ℤ, parse_int}
use loglens_api.Table.{find_first, update_where, insert_row}
use loglens_api.Table.Laws.{find_first-update_where, find_first-insert_row_old}
use loglens_api.Models.{RefreshToken}
use loglens_api.Errors.{bad_credentials}
use loglens_api.Effect.{Env, World, Result, ok, err}
use loglens_api.Security.{RefreshClaims, refresh_signing_key, refresh_payload, decode_refresh_token}
use loglens_api.Repositories.RefreshTokens.{has_jti_hash, get_by_jti_hash}
use loglens_api.Auth.{owned_by, get_refresh_token_record}

row_after_update :
    (h : Text) (t : RefreshToken) (q : RefreshToken → Bool) (g : RefreshToken → RefreshToken)
    (ts : List RefreshToken)
    → ((r : RefreshToken) → (g r).jti_hash ≡ r.jti_hash)
    → find_first (has_jti_hash h) ts ≡ some t
    → find_first (has_jti_hash h) (update_where q g ts) ≡ some (if q t then g t else t)
row_after_update h t q g ts keeps e = rw (
  find_first-update_where q (has_jti_hash h) g ts
      (λ r. elim (Bool-cases (q r)) [ inl y ↦ rw (y, keeps r) | inr y ↦ rw y ]),
  e,
)

row_after_insert :
    (h : Text) (n t : RefreshToken) (q : RefreshToken → Bool) (g : RefreshToken → RefreshToken)
    (ts : List RefreshToken)
    → ((r : RefreshToken) → (g r).jti_hash ≡ r.jti_hash)
    → find_first (has_jti_hash h) ts ≡ some t
    → find_first (has_jti_hash h) (insert_row n (update_where q g ts))
      ≡ some (if q t then g t else t)
row_after_insert h n t q g ts keeps e =
    find_first-insert_row_old (has_jti_hash h) n (update_where q g ts)
      (row_after_update h t q g ts keeps e)

module _ (env : Env) where
  abbrev Presented : Type 0
  Presented = RefreshToken × ℤ × Text

  abbrev bundle : ℤ → Text → Option RefreshToken → Option Presented
  bundle user_id family_id none = none
  bundle user_id family_id (some t) = some (t, user_id, family_id)

  abbrev identified : World env → RefreshClaims → Option ℤ → Option Presented
  identified w p none = none
  identified w p (some user_id) =
      bundle user_id p.family_id (
        owned_by env user_id
          (find_first (has_jti_hash (env.sha256 p.jti)) w.working.refresh_tokens))

  -- The claims of the token, as the decoder gives them at the next reading of the clock.
  unfoldable pub claims_of : Text → World env → Option RefreshClaims
  claims_of token w = refresh_payload env (
      env.jwt_decode (env.clock w.readings) token (refresh_signing_key env)
        env.settings.jwt_algorithm)

  abbrev located : World env → Option RefreshClaims → Option Presented
  located w none = none
  located w (some p) = identified w p (parse_int p.sub)

  -- The token is genuine at the time it is read, and its row is there and owned by its subject.
  unfoldable pub presented : Text → World env → Option Presented
  presented token w = located w (claims_of token w)

  abbrev pub read_clock : World env → World env
  read_clock w = record w { readings = w.readings + 1 }

  abbrev found_or_refused : Option Presented → World env → Result Presented × World env
  found_or_refused none w = (err bad_credentials, w)
  found_or_refused (some t) w = (ok t, w)

  pub get_refresh_token_record-presented :
      (token : Text) (w : World env)
      → get_refresh_token_record env token w ≡ found_or_refused (presented token w) (read_clock w)
  unfolding get_refresh_token_record presented claims_of decode_refresh_token get_by_jti_hash
  get_refresh_token_record-presented token w = ground arith

  -- A presented row is one that a search of the table by some hash finds.
  pub presented_row :
      (token : Text) (w : World env) {t : RefreshToken} {user_id : ℤ} {family_id : Text}
      → presented token w ≡ some (t, user_id, family_id)
      → (h : Text) × (find_first (has_jti_hash h) w.working.refresh_tokens ≡ some t)
  unfolding presented
  presented_row token w {t} found = elim (Option-cases (claims_of token w)) [
    | inl e ↦ absurd (ground arith)
    | inr (p, e) ↦ (env.sha256 p.jti, ground arith)
  ]

  -- The same token later, when its row has been updated.
  pub presented-updated :
      (token : Text) (v w : World env) {t : RefreshToken} {user_id : ℤ} {family_id : Text}
      (q : RefreshToken → Bool) (g : RefreshToken → RefreshToken)
      → ((r : RefreshToken) → (g r).jti_hash ≡ r.jti_hash)
      → ((r : RefreshToken) → (g r).user_id ≡ r.user_id)
      → v.working.refresh_tokens ≡ update_where q g w.working.refresh_tokens
      → claims_of token v ≡ claims_of token w
      → presented token w ≡ some (t, user_id, family_id)
      → presented token v ≡ some (if q t then g t else t, user_id, family_id)
  unfolding presented
  presented-updated token v w {t} q g keeps_hash keeps_user table same found =
      elim (Option-cases (claims_of token w)) [
        | inl e ↦ absurd (ground arith)
        | inr (p, e) ↦ ground (
          arith,
          row_after_update (env.sha256 p.jti) t q g w.working.refresh_tokens keeps_hash,
          keeps_user t,
        )
      ]

  -- The same token later, when its row has been updated and another row has been added.
  pub presented-later :
      (token : Text) (v w : World env) {t : RefreshToken} {user_id : ℤ} {family_id : Text}
      (n : RefreshToken) (q : RefreshToken → Bool) (g : RefreshToken → RefreshToken)
      → ((r : RefreshToken) → (g r).jti_hash ≡ r.jti_hash)
      → ((r : RefreshToken) → (g r).user_id ≡ r.user_id)
      → v.working.refresh_tokens ≡ insert_row n (update_where q g w.working.refresh_tokens)
      → claims_of token v ≡ claims_of token w
      → presented token w ≡ some (t, user_id, family_id)
      → presented token v ≡ some (if q t then g t else t, user_id, family_id)
  unfolding presented
  presented-later token v w {t} n q g keeps_hash keeps_user table same found =
      elim (Option-cases (claims_of token w)) [
        | inl e ↦ absurd (ground arith)
        | inr (p, e) ↦ ground (
          arith,
          row_after_insert (env.sha256 p.jti) n t q g w.working.refresh_tokens keeps_hash,
          keeps_user t,
        )
      ]
