-- ===== src/System/Cleaning.antt =====
-- The clean-up task keeps the tables sound.
use loglens_api.Base.{ℕ, zero, suc, ◌+◌, Bool, true, false, Option, some, List, [], ◌∷◌, length}
use loglens_api.Table.{delete_where}
use loglens_api.Table.Counts.{member}
use loglens_api.Models.{Instant}
use loglens_api.Effect.{Env, Action, pure, write, commit, query, ◌>>◌}
use loglens_api.Effect.Keeps.{Keeps, Keeps-bind}
use loglens_api.Workers.Cleanup.{
  next_batch, cleanup_batches, retention_threshold, cleanup_session, cleanup_old_logs, run_dry,
}
use loglens_api.System.Sound.{IsSound}
use loglens_api.System.Changes.{deletion-IsSound}
use loglens_api.System.Steps.{step_rules, session_scope-IsSound, query-IsSound, commit-IsSound}

module _ {env : Env} where
  deletion-Keeps :
      (ids : List ℕ)
      → Keeps IsSound
          (write {env = env} λ d. record d { logs = delete_where (λ l. member ids l.id) d.logs })
  deletion-Keeps ids = record { at = λ w. deletion-IsSound w _ }

  cleanup_batches-IsSound :
      (fuel size : ℕ) (threshold : Instant) (deleted : ℕ)
      → Keeps IsSound (cleanup_batches {env = env} fuel size threshold deleted)
  unfolding cleanup_batches
  cleanup_batches-IsSound zero size threshold deleted = search step_rules
  cleanup_batches-IsSound (suc fuel) size threshold deleted =
      Keeps-bind (query (λ d. next_batch size threshold d.logs)) _ (query-IsSound _)
        (round λ more. cleanup_batches-IsSound fuel size threshold more)
    where
      round :
          ((more : ℕ) → Keeps IsSound (cleanup_batches {env = env} fuel size threshold more))
          → (ids : List ℕ)
          → Keeps {env = env} IsSound (elim ids as (λ _. Action env (Option ℕ)) [
            | [] ↦ pure (some deleted)
            | i ∷ is ↦ (do
              write (λ d. record d { logs = delete_where (λ l. member (i ∷ is) l.id) d.logs })
              commit
              cleanup_batches fuel size threshold (deleted + length (i ∷ is)))
          ])
      round rest [] = search step_rules
      round rest (i ∷ is) =
          Keeps-bind _ _ (deletion-Keeps (i ∷ is))
            λ _. Keeps-bind commit _ commit-IsSound λ _. rest (deleted + length (i ∷ is))

module _ (env : Env) where
  retention_threshold-IsSound : Keeps IsSound (retention_threshold env)
  unfolding retention_threshold
  retention_threshold-IsSound = search step_rules

  cleanup_session-IsSound :
      (dry : Bool) (threshold : Instant) → Keeps IsSound (cleanup_session env dry threshold)
  unfolding cleanup_session
  cleanup_session-IsSound true threshold = search step_rules
  cleanup_session-IsSound false threshold = search (step_rules, cleanup_batches-IsSound)

  pub cleanup_old_logs-IsSound :
      (dry_run : Option Bool) → Keeps IsSound (cleanup_old_logs env dry_run)
  unfolding cleanup_old_logs
  cleanup_old_logs-IsSound dry_run =
      Keeps-bind (retention_threshold env) _ retention_threshold-IsSound λ threshold.
        session_scope-IsSound (cleanup_session env (run_dry env dry_run) threshold)
          (cleanup_session-IsSound (run_dry env dry_run) threshold)
