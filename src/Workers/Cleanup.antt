-- ===== src/Workers/Cleanup.antt =====
-- app/workers/tasks/cleanup_tasks.py: deleting the logs that are older than the retention period, in
-- batches.
pub mod Batches
pub mod Retention
use loglens_api.Base.{
  ℕ, zero, suc, ◌+◌, ◌-◌, ◌*◌, Bool, true, false, Option, none, some, List, [], ◌∷◌, map, length,
  take, leb, ltb, if◌then◌else◌,
}
use loglens_api.Table.{select_where, delete_where, order_by}
use loglens_api.Table.Counts.{member}
use loglens_api.Errors.{Error}
use loglens_api.Models.{Instant, Log}
use loglens_api.Effect.{
  Env, Action, ok, err, pure, raise_if, ◌>>=◌, ◌>>◌, commit, query, write, utc_now,
}
use loglens_api.Workers.{session_scope}

pub record CleanupResult : Type 0 where
  pub dry_run : Bool
  pub deleted_count : ℕ

-- A day in microseconds.
abbrev pub day : ℕ
day = 86400000000

abbrev pub is_old : Instant → Log → Bool
is_old threshold l = ltb l.timestamp threshold

-- The ids of the next batch.
unfoldable pub next_batch : ℕ → Instant → List Log → List ℕ
next_batch size threshold logs =
    take size
      (map (λ l. l.id) (order_by (λ a b. leb a.id b.id) (select_where (is_old threshold) logs)))

module _ {env : Env} where
  -- The `while True` loop; `none` if the fuel ends before the loop does.
  unfoldable pub cleanup_batches : ℕ → ℕ → Instant → ℕ → Action env (Option ℕ)
  cleanup_batches zero size threshold deleted = pure none
  cleanup_batches (suc fuel) size threshold deleted = do
    ids ← query (λ d. next_batch size threshold d.logs)
    elim ids [
      | [] ↦ pure (some deleted)
      | i ∷ is ↦ (do
        write (λ d. record d { logs = delete_where (λ l. member (i ∷ is) l.id) d.logs })
        commit
        cleanup_batches fuel size threshold (deleted + length (i ∷ is)))
    ]

module _ (env : Env) where
  -- A time before the first one is an `OverflowError`.
  unfoldable pub retention_threshold : Action env Instant
  retention_threshold = do
    now ← utc_now
    raise_if (ltb now (env.settings.log_retention_days * day)) Error.overflow_error
    pure (now - env.settings.log_retention_days * day)

  -- `settings.cleanup_dry_run_default if dry_run is None else dry_run`
  abbrev pub run_dry : Option Bool → Bool
  run_dry none = env.settings.cleanup_dry_run_default
  run_dry (some dry_run) = dry_run

  -- What the session does once the threshold is known.
  unfoldable pub cleanup_session : Bool → Instant → Action env (Option CleanupResult)
  cleanup_session true threshold = do
    deleted ← query (λ d. length (select_where (is_old threshold) d.logs))
    pure (some (record { dry_run = true; deleted_count = deleted }))
  cleanup_session false threshold = do
    rounds ← query (λ d. suc (length d.logs))
    deleted ← cleanup_batches rounds env.settings.cleanup_batch_size threshold 0
    pure (elim deleted [
      | none ↦ none
      | some n ↦ some (record { dry_run = false; deleted_count = n })
    ])

  -- `_cleanup_old_logs`. The loop gets one round more than there are logs.
  unfoldable pub cleanup_old_logs : Option Bool → Action env (Option CleanupResult)
  cleanup_old_logs dry_run = do
    threshold ← retention_threshold
    session_scope (cleanup_session (run_dry dry_run) threshold)
