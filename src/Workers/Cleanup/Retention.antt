-- ===== src/Workers/Cleanup/Retention.antt =====
-- What a whole run of the clean-up leaves of the logs.
use loglens_api.Base.{
  ℕ, suc, ◌-◌, ◌*◌, ◌+◌, ◌≤◌, ◌≡◌, refl, Bool, true, false, Option, some, arith, length, ap, ◌∙◌,
}
use loglens_api.Table.Laws.{length-select_where-le}
use loglens_api.Table.Counts.{how_many}
use loglens_api.Models.{Instant}
use loglens_api.Effect.{Env, World, ok}
use loglens_api.Effect.Laws.{bind-ok}
use loglens_api.Workers.{session_scope}
use loglens_api.Workers.Cleanup.{
  day, is_old, run_dry, retention_threshold, cleanup_batches, cleanup_session, cleanup_old_logs,
}
use loglens_api.Workers.Cleanup.Batches.{HasDistinctIds, without_old, cleanup_batches-ends}

-- The logs older than this are past their retention, at a given time.
abbrev pub oldest_kept : Env → Instant → Instant
oldest_kept env now = now - env.settings.log_retention_days * day

module _ (env : Env) where
  retention_threshold-runs :
      (w : World env)
      → env.settings.log_retention_days * day ≤ env.clock w.readings
      → retention_threshold env w
        ≡ (ok (oldest_kept env (env.clock w.readings)), record w { readings = w.readings + 1 })
  unfolding retention_threshold
  retention_threshold-runs w in_range = ground arith

  cleanup_old_logs-runs :
      (dry_run : Option Bool) (w : World env)
      → env.settings.log_retention_days * day ≤ env.clock w.readings
      → let (answer, w') =
          cleanup_session env
            (run_dry env dry_run)
            (oldest_kept env (env.clock w.readings))
            (record w { readings = w.readings + 1 }) in
        ((cleanup_old_logs env dry_run w).0 ≡ answer)
        × ((cleanup_old_logs env dry_run w).1.committed ≡ w'.committed)
  unfolding cleanup_old_logs
  cleanup_old_logs-runs dry_run w in_range =
      let runs =
        bind-ok (retention_threshold env)
          (λ threshold. session_scope (cleanup_session env (run_dry env dry_run) threshold)) w
          (retention_threshold-runs w in_range) in
      (ap (λ r. r.0) runs, ap (λ r. r.1.committed) runs)

  session-counts :
      (n : ℕ) (threshold : Instant) (w : World env)
      → (cleanup_batches
          (suc (length w.working.logs))
          env.settings.cleanup_batch_size
          threshold
          0
          w).0
        ≡ ok (some n)
      → ((cleanup_session env false threshold w).0
          ≡ ok (some (record { dry_run = false; deleted_count = n })))
        × ((cleanup_session env false threshold w).1
            ≡ (cleanup_batches
                (suc (length w.working.logs))
                env.settings.cleanup_batch_size
                threshold
                0
                w).1)
  unfolding cleanup_session
  session-counts n threshold w answer = ground arith

  -- The loop over the batches ends, and the run does what one DELETE of the old logs does: all of
  -- them are gone from the committed tables, nothing else is, and their number is the answer. The
  -- ids of the logs are distinct, the batches are not empty, and the retention period does not
  -- reach behind the first time.
  pub cleanup_old_logs-deletes :
      (dry_run : Option Bool) (w : World env)
      → run_dry env dry_run ≡ false
      → w.working ≡ w.committed
      → HasDistinctIds w.working.logs
      → 1 ≤ env.settings.cleanup_batch_size
      → env.settings.log_retention_days * day ≤ env.clock w.readings
      → let threshold = oldest_kept env (env.clock w.readings) in
        let (answer, w') = cleanup_old_logs env dry_run w in
        (answer
          ≡ ok (
              some (record {
                dry_run = false;
                deleted_count = how_many (is_old threshold) w.working.logs;
              })))
        × (w'.committed ≡ without_old threshold w.committed)
  cleanup_old_logs-deletes dry_run w wet fresh distinct some_size in_range =
      let threshold : Instant = oldest_kept env (env.clock w.readings) in
      let w1 : World env = record w { readings = w.readings + 1 } in
      let (counted, gone) =
        cleanup_batches-ends (suc (length w.working.logs)) env.settings.cleanup_batch_size threshold
          0 w1 distinct some_size
          (omega (arith, length-select_where-le (is_old threshold) w.working.logs)) fresh in
      let (answer, state) =
        session-counts (how_many (is_old threshold) w.working.logs) threshold w1
          (counted ∙ ap (λ n. ok (some n)) (omega arith)) in
      let (same_answer, same_state) = cleanup_old_logs-runs dry_run w in_range in
      rw (same_answer, same_state, wet, answer, state) (refl, gone)

  -- A dry run counts the logs that a run without it would delete, and leaves the committed tables
  -- as they are, if the retention period does not reach behind the first time.
  pub cleanup_old_logs-dry_run :
      (dry_run : Option Bool) (w : World env)
      → run_dry env dry_run ≡ true
      → env.settings.log_retention_days * day ≤ env.clock w.readings
      → let threshold = oldest_kept env (env.clock w.readings) in
        let (answer, w') = cleanup_old_logs env dry_run w in
        (answer
          ≡ ok (
              some (record {
                dry_run = true;
                deleted_count = how_many (is_old threshold) w.working.logs;
              })))
        × (w'.committed ≡ w.committed)
  unfolding cleanup_session
  cleanup_old_logs-dry_run dry_run w dry in_range =
      let (same_answer, same_state) = cleanup_old_logs-runs dry_run w in_range in
      rw (same_answer, same_state, dry) (refl, refl)
