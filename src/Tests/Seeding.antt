-- ===== src/Tests/Seeding.antt =====
-- The first administrator, seeded twice.
use loglens_api.Base.{◌≡◌, ◌⊎◌, refl, true, some, [], ◌∷◌}
use loglens_api.Text.{codes, lower}
use loglens_api.Table.{find_first}
use loglens_api.Models.{User}
use loglens_api.Models.Enums.{UserRole}
use loglens_api.Effect.{World, ok}
use loglens_api.Repositories.Users.{has_email}
use loglens_api.Scripts.{SeedOutcome, configured, seed_admin_user}
use loglens_api.Scripts.Seeding.{seed_admin_user-twice}
use loglens_api.Tests.Sample.{env, world_of, db, active_token}

abbrev home : World env
home = world_of (db (active_token ∷ []))

program : Unit {0}
unfolding configured lower find_first
program = tt

seed_admin_user-twice_example :
    let once = (seed_admin_user env home).1 in
    let (r, twice) = seed_admin_user env once in
    (r ≡ ok SeedOutcome.already_exists)
    × (twice.committed ≡ once.committed)
    × ((u : User) × (find_first (has_email (lower (codes "Root@B"))) once.committed.users ≡ some u)
        × ((find_first (has_email (lower (codes "Root@B"))) home.working.users ≡ some u)
            ⊎ ((u.role ≡ UserRole.admin)
                × (u.is_active ≡ true)
                × (u.password_hash ≡ env.argon2_hash home.draws (codes "pw")))))
unfolding program
seed_admin_user-twice_example =
    seed_admin_user-twice env (codes "Root@B") (codes "pw") home refl refl
