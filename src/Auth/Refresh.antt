-- ===== src/Auth/Refresh.antt =====
-- `AuthService.refresh_session` on each of its branches.
use loglens_api.Base.{
  ◌+◌, ◌≤◌, ◌<◌, ◌≡◌, refl, true, false, not, ◌&&◌, [], ◌∷◌, some, List, arith, All,
}
use loglens_api.Text.{Text, text_eq}
use loglens_api.Text.Decimal.{ℤ}
use loglens_api.Table.{select_where, update_where}
use loglens_api.Clock.{as_utc_aware}
use loglens_api.Models.{Instant, RefreshToken}
use loglens_api.Errors.{bad_credentials}
use loglens_api.Effect.{Env, World, err}
use loglens_api.Repositories.RefreshTokens.{is_active, closed, revoke_family}
use loglens_api.Repositories.Users.{is_some}
use loglens_api.Auth.{reject_expired, reject_revoked, rotate, refresh_session}
use loglens_api.Auth.Tokens.{read_clock, presented, get_refresh_token_record-presented}

-- No token of the family is left that has not been revoked.
abbrev pub FamilyIsClosed : Text → List RefreshToken → Type 0
FamilyIsClosed family_id = All (λ t. text_eq t.family_id family_id ≡ true → is_active t ≡ false)

-- The tokens of every other family.
abbrev pub other_families : Text → List RefreshToken → List RefreshToken
other_families family_id = select_where (λ t. not (text_eq t.family_id family_id))

closed-FamilyIsClosed :
    (family_id : Text) (at : Instant) (ts : List RefreshToken)
    → FamilyIsClosed family_id
        (update_where (λ t. text_eq t.family_id family_id && is_active t) (closed at true) ts)
unfolding update_where
closed-FamilyIsClosed family_id at [] = tt
closed-FamilyIsClosed family_id at (t ∷ ts) =
    ((λ h. ground arith), closed-FamilyIsClosed family_id at ts)

closed-other_families :
    (family_id : Text) (at : Instant) (ts : List RefreshToken)
    → other_families family_id
        (update_where (λ t. text_eq t.family_id family_id && is_active t) (closed at true) ts)
      ≡ other_families family_id ts
unfolding update_where select_where
closed-other_families family_id at [] = refl
closed-other_families family_id at (t ∷ ts) = ground (arith, closed-other_families family_id at ts)

module _ (env : Env) (token : Text) (w : World env) {t : RefreshToken} {user_id : ℤ}
    {family_id : Text} (found : presented env token w ≡ some (t, user_id, family_id)) where
  -- The clock as `refresh_session` reads it, after the decoder has.
  abbrev now : Instant
  now = env.clock (w.readings + 1)

  abbrev w2 : World env
  w2 = read_clock env (read_clock env w)

  pub refresh_session-expired :
      (e : Instant)
      → as_utc_aware t.expires_at ≡ some e
      → e ≤ now
      → refresh_session env token w ≡ reject_expired env t now w2
  unfolding refresh_session
  refresh_session-expired e ex le = ground (arith, get_refresh_token_record-presented env token w)

  pub refresh_session-revoked :
      (e : Instant)
      → as_utc_aware t.expires_at ≡ some e
      → now < e
      → is_active t ≡ false
      → refresh_session env token w ≡ reject_revoked env t now w2
  unfolding refresh_session
  refresh_session-revoked e ex lt revoked_before =
      ground (arith, get_refresh_token_record-presented env token w)

  pub refresh_session-rotate :
      (e : Instant)
      → as_utc_aware t.expires_at ≡ some e
      → now < e
      → is_active t ≡ true
      → refresh_session env token w ≡ rotate env t user_id family_id now w2
  unfolding refresh_session
  refresh_session-rotate e ex lt active =
      ground (arith, get_refresh_token_record-presented env token w)

  -- An unexpired token that was revoked and has a successor is refused; its family is closed, no
  -- row of another family changes, and that is committed.
  pub refresh_session-reuse :
      (e : Instant)
      → as_utc_aware t.expires_at ≡ some e
      → now < e
      → is_active t ≡ false
      → is_some t.replaced_by_jti_hash ≡ true
      → let (r, w') = refresh_session env token w in
        (r ≡ err bad_credentials)
        × FamilyIsClosed t.family_id w'.committed.refresh_tokens
        × (other_families t.family_id w'.committed.refresh_tokens
            ≡ other_families t.family_id w.working.refresh_tokens)
  unfolding refresh_session revoke_family
  refresh_session-reuse e ex lt revoked_before rotated =
      rw (refresh_session-revoked e ex lt revoked_before) (
        rw (rotated, reject_revoked)
          (refl, closed-FamilyIsClosed _ _ _, closed-other_families _ _ _))
