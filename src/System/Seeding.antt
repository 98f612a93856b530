-- ===== src/System/Seeding.antt =====
-- The script that seeds the first administrator keeps the tables sound.
use loglens_api.Base.{Option, none, some}
use loglens_api.Text.{Text}
use loglens_api.Models.{User}
use loglens_api.Effect.{Env, World, Action, Result, ok, err, pure}
use loglens_api.Effect.Keeps.{Keeps}
use loglens_api.Scripts.{transaction, seed_unless, seed, seed_configured, seed_admin_user}
use loglens_api.System.Sound.{IsSound}
use loglens_api.System.Accounts.{create_user-IsSound}
use loglens_api.System.Steps.{session_scope-IsSound, commit-IsSound, rollback-IsSound}
use loglens_api.System.Reads.{read_rules, security_rules}

transaction-IsSound :
    {env : Env} {A : Type 0} (m : Action env A) → Keeps IsSound m → Keeps IsSound (transaction m)
transaction-IsSound {env} {A} m km = record { at = λ w h. end (m w).0 (m w).1 (km.at w h) }
  where
    end :
        (r : Result A) (w' : World env)
        → IsSound w'
        → IsSound
            (elim r as (λ _. Result A × World env) [
              | ok a ↦ transaction (pure a) w'
              | err e ↦ transaction (λ v. (err e, v)) w'
            ]).1
    end (ok a) w' h = commit-IsSound.at w' h
    end (err e) w' h = rollback-IsSound.at w' h

module _ (env : Env) where
  seed_unless-IsSound :
      (email password : Text) (found : Option User)
      → Keeps IsSound (seed_unless env email password found)
  seed_unless-IsSound email password (some u) = search read_rules
  seed_unless-IsSound email password none = search (read_rules, security_rules, create_user-IsSound)

  seed-IsSound : (email password : Text) → Keeps IsSound (seed env email password)
  unfolding seed
  seed-IsSound email password = search (read_rules, seed_unless-IsSound)

  seed_configured-IsSound :
      (email password : Option Text) → Keeps IsSound (seed_configured env email password)
  seed_configured-IsSound (some email) (some password) =
      session_scope-IsSound _
        (transaction-IsSound (seed env email password) (seed-IsSound email password))
  seed_configured-IsSound none password = search read_rules
  seed_configured-IsSound (some email) none = search read_rules

  pub seed_admin_user-IsSound : Keeps IsSound (seed_admin_user env)
  unfolding seed_admin_user
  seed_admin_user-IsSound = seed_configured-IsSound _ _
