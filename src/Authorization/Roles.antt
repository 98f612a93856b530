-- ===== src/Authorization/Roles.antt =====
-- Who passes the role checks.
use loglens_api.Base.{◌≡◌, true, Option, some, inl, inr, Option-cases, arith}
use loglens_api.Text.{Text}
use loglens_api.Text.Decimal.{ℤ, parse_int}
use loglens_api.Table.{find_first}
use loglens_api.Models.{User}
use loglens_api.Models.Enums.{UserRole}
use loglens_api.Effect.{Env, World, ok}
use loglens_api.Security.{access_subject, access_signing_key, decode_access_token}
use loglens_api.Repositories.Users as user_repo
use loglens_api.Repositories.Users.{same_id}
use loglens_api.Users.{get_user_by_id}
use loglens_api.Authorization.{get_current_user, require_admin_user}

module _ (env : Env) (token : Text) (w : World env) where
  -- The subject of the token, which is checked against the clock.
  abbrev pub subject : Option Text
  subject = access_subject env (
      env.jwt_decode (env.clock w.readings) token (access_signing_key env)
        env.settings.jwt_algorithm)

  -- Whoever passes as the current user is the enabled account whose id is the subject of a token that
  -- decodes as an access token now.
  pub get_current_user-ok :
      {user : User}
      → (get_current_user env token w).0 ≡ ok user
      → (s : Text) × (z : ℤ) × (subject ≡ some s)
        × (parse_int s ≡ some z)
        × (find_first (λ u. same_id u.id z) w.working.users ≡ some user)
        × (user.is_active ≡ true)
  unfolding get_current_user decode_access_token get_user_by_id user_repo.get_by_id
  get_current_user-ok h = elim (Option-cases subject) [
    | inl e ↦ absurd (ground arith)
    | inr (s, e) ↦ elim (Option-cases (parse_int s)) [
      | inl e' ↦ absurd (ground arith)
      | inr (z, e') ↦ elim (Option-cases (find_first (λ u. same_id u.id z) w.working.users)) [
        | inl e'' ↦ absurd (ground arith)
        | inr (u, e'') ↦ (s, z, e, e', ground arith, ground arith)
      ]
    ]
  ]

  -- Whoever passes as an administrator passes as the current user and has that role.
  pub require_admin_user-ok :
      {user : User}
      → (require_admin_user env token w).0 ≡ ok user
      → ((get_current_user env token w).0 ≡ ok user) × (user.role ≡ UserRole.admin)
  unfolding require_admin_user
  require_admin_user-ok h = (ground arith, ground arith)
