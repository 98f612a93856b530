-- ===== src/Scripts.antt =====
-- scripts/seed_admin_user.py: the first administrator, from the settings.
pub mod Seeding
use loglens_api.Base.{Bool, true, false, Option, none, some, List, [], ◌∷◌, if◌then◌else◌}
use loglens_api.Text.{Text, lower}
use loglens_api.Models.{User}
use loglens_api.Models.Enums.{UserRole}
use loglens_api.Effect.{Env, World, Action, ok, err, pure, ◌>>=◌, ◌>>◌, commit, rollback}
use loglens_api.Security.{hash_password}
use loglens_api.Repositories.Users as user_repo
use loglens_api.Repositories.Users.{is_some}
use loglens_api.Workers.{session_scope}

-- How the script ends: with `SystemExit`, or with one of two lines that it prints.
pub data SeedOutcome : Type 0 where
  not_configured already_exists seeded : SeedOutcome

-- `not value` is true of `None` and of an empty text.
unfoldable pub configured : Option Text → Option Text
configured none = none
configured (some []) = none
configured (some (c ∷ s)) = some (c ∷ s)

-- `async with session.begin()`: the block's writes are committed, or taken back on an exception.
abbrev pub transaction : {env : Env} {A : Type 0} → Action env A → Action env A
transaction m w =
    let (r, w') = m w in
    elim r [ ok a ↦ (do commit; pure a) w' | err e ↦ (do rollback; λ v. (err e, v)) w' ]

module _ (env : Env) where
  -- The body of the transaction.
  abbrev pub seed_unless : Text → Text → Option User → Action env SeedOutcome
  seed_unless email password (some existing) = pure SeedOutcome.already_exists
  seed_unless email password none = do
    password_hash ← hash_password env password
    _ ← user_repo.create_user (lower email) password_hash UserRole.admin true
    pure SeedOutcome.seeded

  unfoldable pub seed : Text → Text → Action env SeedOutcome
  seed email password = do
    existing ← user_repo.get_by_email (lower email)
    seed_unless email password existing

  abbrev pub seed_configured : Option Text → Option Text → Action env SeedOutcome
  seed_configured (some email) (some password) = session_scope (transaction (seed email password))
  seed_configured _ _ = pure SeedOutcome.not_configured

  unfoldable pub seed_admin_user : Action env SeedOutcome
  seed_admin_user =
      seed_configured (configured env.settings.admin_bootstrap_email)
        (configured env.settings.admin_bootstrap_password)
