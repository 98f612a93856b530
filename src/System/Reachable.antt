-- ===== src/System/Reachable.antt =====
-- The states that the program can come to: from empty tables, by any requests and any runs of the tasks,
-- in any order, a task also more than once and for any job.
use loglens_api.Base.{
  ◌≡◌, refl, subst, ◌++◌, Bool, Option, some, List, [], ◌∷◌, if◌then◌else◌, arith, All, inl, inr,
  Option-cases,
}
use loglens_api.Text.{Text}
use loglens_api.Table.{find_first, select_where}
use loglens_api.Models.{BackgroundJob}
use loglens_api.Effect.{Env, World, Db, QueuedTask, bulk_ingestion, pure}
use loglens_api.Repositories.Jobs.{has_job_id, get_by_id}
use loglens_api.Logs.Counting.{occurrences}
use loglens_api.Analytics.{recalculate_summary_analytics}
use loglens_api.Workers.{session_scope}
use loglens_api.Workers.Bulk.{
  already, is_done, run_bulk, process_bulk_with_session, process_bulk_ingestion_job,
}
use loglens_api.Workers.Analysis.{run_analysis_with_session, run_error_group_analysis}
use loglens_api.Workers.Cleanup.{cleanup_old_logs}
use loglens_api.Api.{Request}
use loglens_api.Api.Routes.{run}
use loglens_api.Scripts.{seed_admin_user}
use loglens_api.System.Sound.{HasJob, DbIsSound, IsSound, job_of}
use loglens_api.System.Seeding.{seed_admin_user-IsSound}
use loglens_api.System.Steps.{session_scope-IsSound}
use loglens_api.System.Services.{recalculate-IsSound}
use loglens_api.System.Tasks.{process_bulk_with_session-IsSound}
use loglens_api.System.Analysis.{run_analysis_with_session-IsSound}
use loglens_api.System.Cleaning.{cleanup_old_logs-IsSound}
use loglens_api.System.Routes.{run-IsSound}

abbrev pub empty_db : Db
empty_db = record {
  users = [];
  refresh_tokens = [];
  error_groups = [];
  logs = [];
  background_jobs = [];
  error_analyses = [];
}

-- One request, or one run of a task or of the script.
pub data Step (env : Env) : World env → World env → Type 0 where
  request : (r : Request) {w : World env} → Step env w (run env r w).1
  bulk_run :
      (job_id : Text) (task : Option Text) {w : World env}
      → Step env w (process_bulk_ingestion_job env job_id task w).1
  analysis_run :
      (job_id : Text) (task : Option Text) {w : World env}
      → Step env w (run_error_group_analysis env job_id task w).1
  cleanup_run :
      (dry_run : Option Bool) {w : World env} → Step env w (cleanup_old_logs env dry_run w).1
  analytics_run : {w : World env} → Step env w (recalculate_summary_analytics env w).1
  seed_run : {w : World env} → Step env w (seed_admin_user env w).1

pub data Reachable (env : Env) : World env → Type 0 where
  fresh :
      (w : World env)
      → w.committed ≡ empty_db
      → w.working ≡ empty_db
      → w.queue ≡ []
      → Reachable env w
  after : {w w' : World env} → Reachable env w → Step env w w' → Reachable env w'

module _ (env : Env) where
  empty-DbIsSound :
      (w : World env) (d : Db) → d ≡ empty_db → w.queue ≡ [] → DbIsSound w.sequences w.queue d
  unfolding find_first select_where occurrences
  empty-DbIsSound w d no_rows no_tasks =
      rw (no_rows, no_tasks)
        (record {
          users = record { ids = omega arith; emails = λ e. omega arith };
          tokens = record { ids = omega arith; hashes = λ h. omega arith };
          logs = record {
            group_ids = omega arith;
            log_ids = omega arith;
            keys = λ v. omega arith;
            counts = λ n. omega arith;
          };
          jobs = record {
            ids = λ i. omega arith;
            keys = λ t k. omega arith;
            scopes = λ t s. omega arith;
            queued = tt;
          };
          analyses = omega arith;
        })

  Step-IsSound : {w w' : World env} → Step env w w' → IsSound w → IsSound w'
  unfolding process_bulk_ingestion_job run_error_group_analysis
  Step-IsSound (Step.request r) h = (run-IsSound env r).at _ h
  Step-IsSound (Step.bulk_run i task) h =
      (session_scope-IsSound (process_bulk_with_session env i task)
          (process_bulk_with_session-IsSound env i task)).at
        _ h
  Step-IsSound (Step.analysis_run i task) h =
      (session_scope-IsSound (run_analysis_with_session env i task)
          (run_analysis_with_session-IsSound env i task)).at
        _ h
  Step-IsSound (Step.cleanup_run dry_run) h = (cleanup_old_logs-IsSound env dry_run).at _ h
  Step-IsSound Step.analytics_run h = (recalculate-IsSound env).at _ h
  Step-IsSound Step.seed_run h = (seed_admin_user-IsSound env).at _ h

  -- Whatever requests, tasks and scripts ran, and in whatever order, the tables are sound, as committed and
  -- as the next session sees them: ids increase and lie below their sequences; an address, a token's
  -- hash, the key of a group, the id of a job, and an idempotency key of a type belong to one row each; a
  -- group counts at least the logs it has; a scope has at most one active job; and each task that was
  -- handed over has its job, which is committed.
  pub Reachable-IsSound : {w : World env} → Reachable env w → IsSound w
  Reachable-IsSound (Reachable.fresh w committed working queue) = (
    empty-DbIsSound w w.committed committed queue,
    empty-DbIsSound w w.working working queue,
    rw working tt,
  )
  Reachable-IsSound (Reachable.after past step) = Step-IsSound step (Reachable-IsSound past)

  -- The task of a bulk job that was handed over finds its job whenever a worker takes it: the run answers the
  -- status of a job that is done, and otherwise runs the job. It never reports that the job is missing.
  pub Reachable-queued_bulk :
      {w : World env} (job_id : Text) (task : Option Text) (before later : List QueuedTask)
      → Reachable env w
      → w.queue ≡ before ++ bulk_ingestion job_id ∷ later
      → (job : BackgroundJob) × (find_first (has_job_id job_id) w.working.background_jobs
          ≡ some job)
        × (process_bulk_ingestion_job env job_id task w
            ≡ session_scope
                (if is_done job.status
                  then pure (already job.status)
                  else run_bulk env job_id task job)
                w)
  unfolding process_bulk_ingestion_job process_bulk_with_session get_by_id
  Reachable-queued_bulk {w} job_id task before later past queue =
      let sound = Reachable-IsSound past in
      let there = handed_over before (subst (All _) queue sound.1.jobs.queued) in
      elim (Option-cases (find_first (has_job_id job_id) w.working.background_jobs)) [
        | inl gone ↦ absurd (ground arith)
        | inr (job, found) ↦ (job, found, rw found refl)
      ]
    where
      handed_over :
          (ts : List QueuedTask)
          → All
              (λ t. HasJob (job_of t) w.working.background_jobs)
              (ts ++ bulk_ingestion job_id ∷ later)
          → HasJob job_id w.working.background_jobs
      handed_over [] h = h.0
      handed_over (t ∷ ts) h = handed_over ts h.1
