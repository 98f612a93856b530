-- ===== src/Workers/Bulk.antt =====
-- app/workers/tasks/log_tasks.py: the bulk ingestion job.
use loglens_api.Base.{
  ℕ, ◌+◌, ◌++◌, ◌==◌, Bool, true, false, Option, none, some, List, [], ◌∷◌, length, take,
  if◌then◌else◌,
}
use loglens_api.Text.{Text, codes}
use loglens_api.Text.Decimal.{str}
use loglens_api.Models.{BackgroundJob, Payload, LogIngestRequest, BulkLogItemFailure, Log}
use loglens_api.Models.Enums.{BackgroundJobStatus}
use loglens_api.Errors.{validation_error}
use loglens_api.Effect.{Env, Action, Result, ok, err, pure, or_raise, ◌>>=◌, ◌>>◌, commit}
use loglens_api.Repositories.Jobs as job_repo
use loglens_api.Jobs.{final_status, decrement_active_background_jobs}
use loglens_api.Logs.{persist_log}
use loglens_api.Workers.{session_scope, begin_nested}

-- What the task returns.
pub data TaskResult : Type 0 where
  missing : TaskResult
  already : BackgroundJobStatus → TaskResult
  done : Text → ℕ → ℕ → BackgroundJobStatus → TaskResult

abbrev pub is_done : BackgroundJobStatus → Bool
is_done BackgroundJobStatus.completed = true
is_done BackgroundJobStatus.partially_completed = true
is_done _ = false

-- `BulkLogIngestRequest.model_validate`: the logs are there, and there is at least one.
abbrev pub valid_logs : Payload → Option (List LogIngestRequest)
valid_logs payload = elim payload.logs [
  | none ↦ none
  | some [] ↦ none
  | some (l ∷ ls) ↦ some (l ∷ ls)
]

-- The variables of the loop.
pub record Progress : Type 0 where
  pub job : BackgroundJob
  pub success_count : ℕ
  pub failures : List BulkLogItemFailure

-- A job whose items all failed is recorded as partially completed.
abbrev pub settled_status : BackgroundJobStatus → List LogIngestRequest → BackgroundJobStatus
settled_status BackgroundJobStatus.failed [] = BackgroundJobStatus.failed
settled_status BackgroundJobStatus.failed (l ∷ ls) = BackgroundJobStatus.partially_completed
settled_status s logs = s

abbrev pub summary_of : ℕ → Option Text
summary_of failure_count =
    if failure_count == 0 then none else some (str failure_count ++ codes " items failed")

module _ (env : Env) where
  -- An item that is stored counts as a success, any exception as a failure.
  abbrev pub tally : ℕ → Progress → Result Log → Progress
  tally index p (ok log) = record p { success_count = p.success_count + 1 }
  tally index p (err e) = record p {
    failures = p.failures ++ (record { index = index; error = take 200 (env.error_text e) }) ∷ [];
  }

  unfoldable pub attempt : LogIngestRequest → Action env (Result Log)
  attempt item w = let (r, w') = begin_nested (persist_log env item) w in (ok r, w')

  unfoldable pub report_progress : ℕ → Progress → Action env Progress
  report_progress index p = do
    job ←
        job_repo.update_progress p.job (index + 1) p.success_count (length p.failures)
          (some (record p.job.payload { failures = some p.failures })) none
    commit
    pure (record p { job = job })

  unfoldable pub ingest_item : ℕ → Progress → LogIngestRequest → Action env Progress
  ingest_item index p item = do r ← attempt item; report_progress index (tally index p r)

  -- `for index, item in enumerate(payload.logs)`
  unfoldable pub ingest_items : ℕ → Progress → List LogIngestRequest → Action env Progress
  ingest_items index p [] = pure p
  ingest_items index p (item ∷ items) = do
    p' ← ingest_item index p item
    ingest_items (index + 1) p' items

  unfoldable pub finish_bulk : Text → List LogIngestRequest → Progress → Action env TaskResult
  finish_bulk job_id logs p = do
    let failure_count = length p.failures
    let status = settled_status (final_status p.success_count failure_count) logs
    job ← job_repo.mark_completed p.job status (summary_of failure_count)
    commit
    decrement_active_background_jobs job.job_type
    pure (done job_id p.success_count failure_count status)

  -- Behind the job's being marked as running.
  abbrev pub run_marked : Text → BackgroundJob → Action env TaskResult
  run_marked job_id job = do
    commit
    logs ← or_raise (valid_logs job.payload) validation_error
    p ← ingest_items 0 (record { job = job; success_count = 0; failures = [] }) logs
    finish_bulk job_id logs p

  unfoldable pub run_bulk : Text → Option Text → BackgroundJob → Action env TaskResult
  run_bulk job_id celery_task_id job = do
    job ← job_repo.mark_running job celery_task_id
    run_marked job_id job

  abbrev pub process_found : Text → Option Text → Option BackgroundJob → Action env TaskResult
  process_found job_id celery_task_id none = pure missing
  process_found job_id celery_task_id (some job) =
      if is_done job.status then pure (already job.status) else run_bulk job_id celery_task_id job

  unfoldable pub process_bulk_with_session : Text → Option Text → Action env TaskResult
  process_bulk_with_session job_id celery_task_id = do
    job ← job_repo.get_by_id job_id
    process_found job_id celery_task_id job

  unfoldable pub process_bulk_ingestion_job : Text → Option Text → Action env TaskResult
  process_bulk_ingestion_job job_id celery_task_id =
      session_scope (process_bulk_with_session job_id celery_task_id)
