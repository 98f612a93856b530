-- ===== src/Auth/Rotation.antt =====
-- The rotation of a refresh token: when it happens, what it writes, and that it happens once.
use loglens_api.Base.{
  ℕ, ◌+◌, ◌*◌, ◌/◌, ◌<◌, ◌≡◌, refl, Bool, true, false, ◌∷◌, Option, none, some, List, inl, inr,
  Bool-cases, arith, ◌==◌, ==_refl,
}
use loglens_api.Text.{Text, codes}
use loglens_api.Text.Decimal.{ℤ, str}
use loglens_api.Table.{find_first, update_where, insert_row}
use loglens_api.Table.Laws.{find_first-update_where}
use loglens_api.Clock.{as_utc_aware, aware}
use loglens_api.Models.{Instant, RefreshToken, User}
use loglens_api.Errors.{bad_credentials}
use loglens_api.Effect.{str_claim, Env, World, ok, err}
use loglens_api.Security.{
  access_kind, second, access_signing_key, minute, create_access_token, create_refresh_token,
  refresh_signing_key, refresh_claims,
}
use loglens_api.Repositories.RefreshTokens.{
  has_jti_hash, is_active, new_token, revoked, revoke_token, create_token,
}
use loglens_api.Repositories.Users.{same_id, get_by_id}
use loglens_api.Auth.{TokenResponse, rotate, refresh_session}
use loglens_api.Auth.Tokens.{read_clock, presented, claims_of, presented-later}
use loglens_api.Auth.Refresh.{FamilyIsClosed, refresh_session-rotate, refresh_session-reuse}

module _ (env : Env) (w : World env) where
  -- The hash of the identifier that the next draw gives.
  abbrev pub successor_hash : Text
  successor_hash = env.sha256 (env.uuid4 w.draws)

  -- The row that a rotation adds: the clock was read by the decoder and by `refresh_session`.
  abbrev pub successor : ℕ → Text → RefreshToken
  successor user_id family_id =
      new_token w.sequences.next_token w.transaction_time user_id successor_hash family_id (
        aware
          (env.clock (w.readings + 1 + 1) + env.settings.jwt_refresh_token_expire_minutes * minute))

  -- The table after a rotation of `t`.
  abbrev pub rotated_table : RefreshToken → ℕ → Text → List RefreshToken
  rotated_table t user_id family_id = insert_row (successor user_id family_id) (
      update_where (λ r. r.id == t.id)
        (revoked (env.clock (w.readings + 1)) (some successor_hash) false) w.working.refresh_tokens)

fresh_after_update :
    (h : Text) (p : RefreshToken → Bool) (at : Instant) (by : Option Text) (ts : List RefreshToken)
    → find_first (has_jti_hash h) ts ≡ none
    → find_first (has_jti_hash h) (update_where p (revoked at by false) ts) ≡ none
fresh_after_update h p at by ts e = rw (
  find_first-update_where p (has_jti_hash h) (revoked at by false) ts
      (λ r. elim (Bool-cases (p r)) [ inl y ↦ rw y | inr y ↦ rw y ]),
  e,
)

-- The answer of a rotation.
abbrev pub rotation_answer : (env : Env) → World env → ℕ → Text → TokenResponse
rotation_answer env w user_id family_id = record {
  access_token =
      env.jwt_encode
        (record {
          sub = some (str_claim (str user_id));
          kind = some (str_claim access_kind);
          jti = none;
          family_id = none;
          exp = some (
              env.clock (w.readings + 1 + 1 + 1)
              + env.settings.jwt_access_token_expire_minutes * minute);
        })
        (access_signing_key env) env.settings.jwt_algorithm;
  refresh_token =
      env.jwt_encode
        (refresh_claims env (str user_id) (env.uuid4 w.draws) family_id
          (env.clock (w.readings + 1 + 1) + env.settings.jwt_refresh_token_expire_minutes * minute))
        (refresh_signing_key env) env.settings.jwt_algorithm;
  token_type = codes "bearer";
  expires_in_seconds = env.settings.jwt_access_token_expire_minutes * minute / second;
  refresh_expires_in_seconds = env.settings.jwt_refresh_token_expire_minutes * minute / second;
}

rotate_lem :
    (env : Env) (w : World env) (t : RefreshToken) (user_id : ℤ) (c : ℕ) (s : Text) (u : User)
    → find_first (λ u. same_id u.id user_id) w.working.users ≡ some u
    → u.is_active ≡ true
    → find_first (has_jti_hash (successor_hash env w)) w.working.refresh_tokens ≡ none
    → let (r, w') =
        rotate env t user_id
          (c ∷ s)
          (env.clock (w.readings + 1))
          (read_clock env (read_clock env w)) in
      (r ≡ ok (rotation_answer env w u.id (c ∷ s)))
      × (w'.committed.refresh_tokens ≡ rotated_table env w t u.id (c ∷ s))
      × (w'.working.refresh_tokens ≡ rotated_table env w t u.id (c ∷ s))
      × (w'.committed.users ≡ w.working.users)
unfolding rotate get_by_id create_refresh_token create_access_token revoke_token create_token
rotate_lem env w t user_id c s u owner enabled fresh =
    let later =
      fresh_after_update (successor_hash env w) (λ r. r.id == t.id) (env.clock (w.readings + 1))
        (some (successor_hash env w)) w.working.refresh_tokens fresh in
    ground arith

module _ (env : Env) (token : Text) (w : World env) {t : RefreshToken} {user_id : ℤ} {c : ℕ}
    {s : Text} (found : presented env token w ≡ some (t, user_id, c ∷ s)) (e : Instant)
    (ex : as_utc_aware t.expires_at ≡ some e) (lt : env.clock (w.readings + 1) < e)
    (active : is_active t ≡ true) (u : User)
    (owner : find_first (λ u. same_id u.id user_id) w.working.users ≡ some u)
    (enabled : u.is_active ≡ true)
    (fresh : find_first (has_jti_hash (successor_hash env w)) w.working.refresh_tokens ≡ none) where
  -- An active, unexpired token of an enabled user, with a new identifier that is not in the table,
  -- is exchanged for a new pair; its row is revoked and points to the successor, which is added,
  -- and both are committed.
  pub refresh_session-rotates :
      let (r, w') = refresh_session env token w in
      (r ≡ ok (rotation_answer env w u.id (c ∷ s)))
      × (w'.committed.refresh_tokens ≡ rotated_table env w t u.id (c ∷ s))
      × (w'.working.refresh_tokens ≡ rotated_table env w t u.id (c ∷ s))
      × (w'.committed.users ≡ w.working.users)
  refresh_session-rotates =
      rw (refresh_session-rotate env token w found e ex lt active)
        (rotate_lem env w t user_id c s u owner enabled fresh)

  abbrev rotated_world : World env
  rotated_world = (refresh_session env token w).1

  presented_again :
      claims_of env token rotated_world ≡ claims_of env token w
      → presented env token rotated_world
        ≡ some (
          revoked (env.clock (w.readings + 1)) (some (successor_hash env w)) false t,
          user_id,
          c ∷ s,
        )
  presented_again same = rw (
    presented-later env token rotated_world w (successor env w u.id (c ∷ s)) (λ r. r.id == t.id)
        (revoked (env.clock (w.readings + 1)) (some (successor_hash env w)) false) (λ r. refl)
        (λ r. refl) refresh_session-rotates.2 same found,
    ==_refl t.id,
  )

  -- A refresh token is exchanged once: presented again while it is genuine and unexpired it is
  -- refused, and every token of its family is then revoked, the one given for it included if it is
  -- of that family.
  pub refresh_session-single_use :
      claims_of env token rotated_world ≡ claims_of env token w
      → env.clock (rotated_world.readings + 1) < e
      → let (r, w') = refresh_session env token rotated_world in
        (r ≡ err bad_credentials) × FamilyIsClosed t.family_id w'.committed.refresh_tokens
  refresh_session-single_use same later =
      let (refused, shut, _) =
        refresh_session-reuse env token rotated_world (presented_again same) e ex later refl refl in
      (refused, shut)
