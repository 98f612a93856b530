-- ===== src/Auth/Logout.antt =====
-- `AuthService.logout` and `AuthService.logout_all`: what is revoked, and that it stays so.
use loglens_api.Base.{
  ℕ, ◌+◌, ◌≡◌, ◌≢◌, refl, true, false, not, ◌&&◌, [], ◌∷◌, none, some, List, ◌∙◌, arith, All, ◌==◌,
  ==_refl,
}
use loglens_api.Text.{Text}
use loglens_api.Text.Decimal.{ℤ}
use loglens_api.Table.{select_where, update_where}
use loglens_api.Models.{Instant, RefreshToken}
use loglens_api.Effect.{Env, World, ok}
use loglens_api.Repositories.RefreshTokens.{
  is_active, revoked, closed, revoke_token, revoke_all_for_user,
}
use loglens_api.Auth.{TokenResponse, refresh_session, logout, logout_all}
use loglens_api.Auth.Tokens.{
  read_clock, claims_of, presented, presented-updated, get_refresh_token_record-presented,
}
use loglens_api.Auth.Accepts.{refresh_session-ok}

module _ (env : Env) (token : Text) (w : World env) {t : RefreshToken} {user_id : ℤ}
    {family_id : Text} (found : presented env token w ≡ some (t, user_id, family_id)) where
  abbrev logged_out : World env
  logged_out = (logout env token w).1

  -- Logging out with an active token revokes its row, and no other, and commits that.
  pub logout-revokes :
      is_active t ≡ true
      → ((logout env token w).0 ≡ ok tt)
        × (logged_out.committed.refresh_tokens
            ≡ update_where
                (λ r. r.id == t.id)
                (revoked (env.clock (w.readings + 1)) none false)
                w.working.refresh_tokens)
        × (logged_out.working.refresh_tokens ≡ logged_out.committed.refresh_tokens)
  unfolding logout revoke_token
  logout-revokes active = ground (arith, get_refresh_token_record-presented env token w)

  -- Logging out again does nothing: a revoked row keeps its time and its successor.
  pub logout-again : is_active t ≡ false → logout env token w ≡ (ok tt, read_clock env w)
  unfolding logout
  logout-again done = ground (arith, get_refresh_token_record-presented env token w)

  -- After logging out with an active token, the token is not exchanged as long as it still decodes
  -- to the same claims.
  pub logout-ends_session :
      {answer : TokenResponse}
      → is_active t ≡ true
      → claims_of env token logged_out ≡ claims_of env token w
      → (refresh_session env token logged_out).0 ≢ ok answer
  logout-ends_session active same h =
      let may = refresh_session-ok env token logged_out h in
      let (_, table, current) = logout-revokes active in
      let again =
        presented-updated env token logged_out w (λ r. r.id == t.id)
          (revoked (env.clock (w.readings + 1)) none false) (λ r. refl) (λ r. refl)
          (current ∙ table) same found in
      ground (arith, ==_refl t.id)

-- No token of the user is left that has not been revoked.
abbrev pub UserIsClosed : ℕ → List RefreshToken → Type 0
UserIsClosed user_id = All (λ t. (t.user_id == user_id) ≡ true → is_active t ≡ false)

abbrev pub other_users : ℕ → List RefreshToken → List RefreshToken
other_users user_id = select_where (λ t. not (t.user_id == user_id))

closed-UserIsClosed :
    (user_id : ℕ) (at : Instant) (ts : List RefreshToken)
    → UserIsClosed user_id
        (update_where (λ t. t.user_id == user_id && is_active t) (closed at false) ts)
unfolding update_where
closed-UserIsClosed user_id at [] = tt
closed-UserIsClosed user_id at (t ∷ ts) = ((λ h. ground arith), closed-UserIsClosed user_id at ts)

closed-other_users :
    (user_id : ℕ) (at : Instant) (ts : List RefreshToken)
    → other_users user_id
        (update_where (λ t. t.user_id == user_id && is_active t) (closed at false) ts)
      ≡ other_users user_id ts
unfolding update_where select_where
closed-other_users user_id at [] = refl
closed-other_users user_id at (t ∷ ts) = ground (arith, closed-other_users user_id at ts)

-- Logging out everywhere closes the user's active rows at one time.
logout_all-updates :
    (env : Env) (user_id : ℕ) (w : World env)
    → (at : Instant) × ((logout_all env user_id w).1.working.refresh_tokens
        ≡ update_where
            (λ t. t.user_id == user_id && is_active t)
            (closed at false)
            w.working.refresh_tokens)
unfolding logout_all revoke_all_for_user
logout_all-updates env user_id w = (_, refl)

-- Logging out everywhere always succeeds, revokes every token of the user and changes no row of
-- another user; it is committed.
pub logout_all-closes :
    (env : Env) (user_id : ℕ) (w : World env)
    → let (r, w') = logout_all env user_id w in
      (r ≡ ok tt)
      × UserIsClosed user_id w'.committed.refresh_tokens
      × (other_users user_id w'.committed.refresh_tokens
          ≡ other_users user_id w.working.refresh_tokens)
      × (w'.working.refresh_tokens ≡ w'.committed.refresh_tokens)
unfolding logout_all revoke_all_for_user
logout_all-closes env user_id w =
    (refl, closed-UserIsClosed user_id _ _, closed-other_users user_id _ _, refl)

-- After a user was logged out everywhere, no token whose row belonged to the user before, active or
-- not, is exchanged as long as it still decodes to the same claims.
pub logout_all-ends_sessions :
    (env : Env) (token : Text) (w : World env) (user_id : ℕ) {t : RefreshToken} {z : ℤ}
    {family_id : Text} {answer : TokenResponse}
    → presented env token w ≡ some (t, z, family_id)
    → (t.user_id == user_id) ≡ true
    → claims_of env token (logout_all env user_id w).1 ≡ claims_of env token w
    → (refresh_session env token (logout_all env user_id w).1).0 ≢ ok answer
logout_all-ends_sessions env token w user_id {t} found member same h =
    let may = refresh_session-ok env token (logout_all env user_id w).1 h in
    let (at, table) = logout_all-updates env user_id w in
    let again =
      presented-updated env token (logout_all env user_id w).1 w
        (λ r. r.user_id == user_id && is_active r) (closed at false) (λ r. refl) (λ r. refl) table
        same found in
    ground arith
