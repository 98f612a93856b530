-- ===== src/Scripts/Seeding.antt =====
-- What seeding the first administrator leaves in the table of users.
use loglens_api.Base.{◌≡◌, refl, sym, ◌∙◌, ◌⊎◌, true, none, some, inl, inr, Option-cases, arith}
use loglens_api.Text.{Text, lower}
use loglens_api.Text.Laws.{text_eq_refl}
use loglens_api.Table.{find_first, insert_row}
use loglens_api.Table.Laws.{find_first-insert_row}
use loglens_api.Models.{User}
use loglens_api.Models.Enums.{UserRole}
use loglens_api.Effect.{Env, World, ok}
use loglens_api.Security.{hash_password}
use loglens_api.Repositories.Users.{has_email, get_by_email, create_user}
use loglens_api.Scripts.{SeedOutcome, configured, seed, seed_admin_user}

module _ (env : Env) (email password : Text) (w : World env) where
  -- An address that has one is left as it is, whatever its role.
  seed_admin_user-known :
      {u : User}
      → configured env.settings.admin_bootstrap_email ≡ some email
      → configured env.settings.admin_bootstrap_password ≡ some password
      → find_first (has_email (lower email)) w.working.users ≡ some u
      → let (r, w') = seed_admin_user env w in
        (r ≡ ok SeedOutcome.already_exists) × (w'.committed ≡ w.working) × (w'.working ≡ w.working)
  unfolding seed_admin_user seed get_by_email
  seed_admin_user-known address secret known = ground arith

module _ (env : Env) (email password : Text) (w : World env) where
  abbrev administrator : User
  administrator = record {
    id = w.sequences.next_user;
    email = lower email;
    password_hash = env.argon2_hash w.draws password;
    role = UserRole.admin;
    is_active = true;
    created_at = w.transaction_time;
    updated_at = w.transaction_time;
  }

  -- An address that has no account gets an administrator's, which is committed.
  seed_admin_user-new :
      configured env.settings.admin_bootstrap_email ≡ some email
      → configured env.settings.admin_bootstrap_password ≡ some password
      → find_first (has_email (lower email)) w.working.users ≡ none
      → let (r, w') = seed_admin_user env w in
        (r ≡ ok SeedOutcome.seeded)
        × (w'.committed.users ≡ insert_row administrator w.working.users)
        × (w'.working ≡ w'.committed)
  unfolding seed_admin_user seed hash_password create_user get_by_email
  seed_admin_user-new address secret free = ground arith

  -- Seeding twice is seeding once: with both values in the settings, the address has an account after the
  -- first run, the one it had before or else an enabled administrator's with a hash of the password, and a
  -- second run finds it and changes no table.
  pub seed_admin_user-twice :
      configured env.settings.admin_bootstrap_email ≡ some email
      → configured env.settings.admin_bootstrap_password ≡ some password
      → let once = (seed_admin_user env w).1 in
        let (r, twice) = seed_admin_user env once in
        (r ≡ ok SeedOutcome.already_exists)
        × (twice.committed ≡ once.committed)
        × ((u : User) × (find_first (has_email (lower email)) once.committed.users ≡ some u)
            × ((find_first (has_email (lower email)) w.working.users ≡ some u)
                ⊎ ((u.role ≡ UserRole.admin)
                    × (u.is_active ≡ true)
                    × (u.password_hash ≡ env.argon2_hash w.draws password))))
  seed_admin_user-twice address secret =
      elim (Option-cases (find_first (has_email (lower email)) w.working.users)) [
        | inl free ↦
            let (_, table, same) = seed_admin_user-new address secret free in
            let there : find_first (has_email (lower email))
                  (seed_admin_user env w).1.committed.users
                ≡ some administrator =
              rw table (
                find_first-insert_row (has_email (lower email)) administrator w.working.users free
                  (text_eq_refl (lower email))) in
            let (r, committed, _) =
              seed_admin_user-known env email password (seed_admin_user env w).1 {u = administrator}
                address secret (rw same there) in
            (r, committed ∙ same, (administrator, there, inr (refl, refl, refl)))
        | inr (u, known) ↦
            let (_, kept, same) = seed_admin_user-known env email password w address secret known in
            let there : find_first (has_email (lower email))
                  (seed_admin_user env w).1.committed.users
                ≡ some u =
              rw kept known in
            let (r, committed, _) =
              seed_admin_user-known env email password (seed_admin_user env w).1 {u = u} address
                secret (rw same known) in
            (r, committed ∙ same ∙ sym kept, (u, there, inl known))
      ]
