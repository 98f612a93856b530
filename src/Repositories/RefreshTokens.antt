-- ===== src/Repositories/RefreshTokens.antt =====
-- app/repositories/refresh_token.py. `refresh_tokens.jti_hash` has a unique index.
use loglens_api.Base.{ℕ, ◌+◌, Bool, false, ◌&&◌, Option, none, some, not, ◌==◌, if◌then◌else◌}
use loglens_api.Text.{Text, text_eq}
use loglens_api.Table.{find_first, update_where, insert_row}
use loglens_api.Models.{Instant, Datetime, RefreshToken}
use loglens_api.Errors.{integrity_error}
use loglens_api.Effect.{
  Env, Action, pure, raise_if, ◌>>=◌, ◌>>◌, query, write, next_id, transaction_now,
}
use loglens_api.Repositories.Users.{is_some}

abbrev pub has_jti_hash : Text → RefreshToken → Bool
has_jti_hash h t = text_eq t.jti_hash h

-- `revoked_at IS NULL`
abbrev pub is_active : RefreshToken → Bool
is_active t = not (is_some t.revoked_at)

-- `RefreshToken(...)` with the defaults of the other columns.
abbrev pub new_token : ℕ → Instant → ℕ → Text → Text → Datetime → RefreshToken
new_token id now user_id jti_hash family_id expires_at = record {
  id = id;
  user_id = user_id;
  jti_hash = jti_hash;
  family_id = family_id;
  replaced_by_jti_hash = none;
  created_at = now;
  expires_at = expires_at;
  revoked_at = none;
  reuse_detected_at = none;
}

-- The attributes that `revoke_token` sets.
abbrev pub revoked : Instant → Option Text → Bool → RefreshToken → RefreshToken
revoked at replaced_by mark_reuse t = record t {
  revoked_at = some at;
  replaced_by_jti_hash = replaced_by;
  reuse_detected_at = if mark_reuse then some at else t.reuse_detected_at;
}

-- The columns that `revoke_family` and `revoke_all_for_user` set.
abbrev pub closed : Instant → Bool → RefreshToken → RefreshToken
closed at mark_reuse t = record t {
  revoked_at = some at;
  reuse_detected_at = if mark_reuse then some at else t.reuse_detected_at;
}

module _ {env : Env} where
  unfoldable pub create_token : ℕ → Text → Text → Datetime → Action env RefreshToken
  create_token user_id jti_hash family_id expires_at = do
    id ← next_id (λ s. s.next_token) (λ s. record s { next_token = s.next_token + 1 })
    now ← transaction_now
    taken ← query (λ d. find_first (has_jti_hash jti_hash) d.refresh_tokens)
    raise_if (is_some taken) integrity_error
    let token = new_token id now user_id jti_hash family_id expires_at
    write (λ d. record d { refresh_tokens = insert_row token d.refresh_tokens })
    pure token

  unfoldable pub get_by_jti_hash : Text → Action env (Option RefreshToken)
  get_by_jti_hash jti_hash = query (λ d. find_first (has_jti_hash jti_hash) d.refresh_tokens)

  unfoldable pub revoke_token : RefreshToken → Instant → Option Text → Bool → Action env (Unit {0})
  revoke_token token at replaced_by mark_reuse = write λ d. record d {
    refresh_tokens =
        update_where (λ t. t.id == token.id) (revoked at replaced_by mark_reuse) d.refresh_tokens;
  }

  unfoldable pub revoke_family : Text → Instant → Bool → Action env (Unit {0})
  revoke_family family_id at mark_reuse = write λ d. record d {
    refresh_tokens =
        update_where (λ t. text_eq t.family_id family_id && is_active t) (closed at mark_reuse)
          d.refresh_tokens;
  }

  unfoldable pub revoke_all_for_user : ℕ → Instant → Action env (Unit {0})
  revoke_all_for_user user_id at = write λ d. record d {
    refresh_tokens =
        update_where (λ t. t.user_id == user_id && is_active t) (closed at false) d.refresh_tokens;
  }
