-- ===== src/Workers/Analysis.antt =====
-- app/workers/tasks/analysis_tasks.py: running the analysis of an error group.
pub mod Newest
pub mod Steps
pub mod Starting
pub mod Settling
pub mod Refusing
use loglens_api.Base.{
  ℕ, Bool, true, false, ◌||◌, ◌&&◌, Option, none, some, List, [], ◌∷◌, length, take, leb, ltb, ◌==◌,
  if◌then◌else◌,
}
use loglens_api.Text.{Text, codes}
use loglens_api.Text.Decimal.{ℤ, pos}
use loglens_api.Table.{select_where, order_by}
use loglens_api.Models.{Instant, BackgroundJob, ErrorAnalysis, ErrorGroup, Log, AiAnalysisResult}
use loglens_api.Models.Enums.{BackgroundJobStatus, ErrorAnalysisStatus}
use loglens_api.Errors.{Error}
use loglens_api.Effect.{
  Env, Action, ok, err, pure, or_raise, ◌>>=◌, ◌>>◌, commit, query, utc_now, catch,
}
use loglens_api.Repositories.Jobs as job_repo
use loglens_api.Repositories.Analyses as analysis_repo
use loglens_api.Repositories.ErrorGroups as group_repo
use loglens_api.Jobs.{decrement_active_background_jobs}
use loglens_api.Ai.Prompt.{build_analysis_prompts}
use loglens_api.Ai.Providers.{analyze_error_group}
use loglens_api.Workers.{session_scope}
use loglens_api.Workers.Bulk.{is_done}

-- What the task returns.
pub data AnalysisTaskResult : Type 0 where
  missing group_missing : AnalysisTaskResult
  already : BackgroundJobStatus → AnalysisTaskResult
  ran : Text → AnalysisTaskResult

-- `order_by(desc(Log.timestamp), desc(Log.id))`
abbrev pub is_later : Log → Log → Bool
is_later a b = ltb b.timestamp a.timestamp || (b.timestamp == a.timestamp && leb b.id a.id)

abbrev pub in_group : ℕ → Log → Bool
in_group group_id l = elim l.error_group_id [ none ↦ false | some id ↦ id == group_id ]

unfoldable pub log_samples : ℕ → List Log → List Log
log_samples group_id logs = take 10 (order_by is_later (select_where (in_group group_id) logs))

-- The attributes set on the analysis when the provider has answered.
abbrev pub completed_analysis : AiAnalysisResult → ℕ → Instant → ErrorAnalysis → ErrorAnalysis
completed_analysis result log_count now a = record a {
  status = ErrorAnalysisStatus.completed;
  summary = some result.summary;
  likely_root_cause = some result.likely_root_cause;
  suggested_fix = some result.suggested_fix;
  confidence = some result.confidence;
  affected_component = some result.affected_component;
  recommended_priority = some result.recommended_priority;
  reasoning_summary = some result.reasoning_summary;
  provider = some result.provider;
  model = some result.model;
  latency_ms = some result.latency_ms;
  raw_response_metadata = some (result.generated_at, log_count);
  completed_at = some now;
}

abbrev pub failed_analysis : ErrorAnalysis → ErrorAnalysis
failed_analysis a = record a { status = ErrorAnalysisStatus.failed }

abbrev pub not_there : Error
not_there = Error.assertion_error

module _ {env : Env} where
  -- The body of the `try`, behind the provider's answer.
  unfoldable pub record_answer :
      BackgroundJob → ErrorAnalysis → ℕ → AiAnalysisResult → Action env BackgroundJob
  record_answer job latest log_count result = do
    now ← utc_now
    analysis_repo.save_analysis (completed_analysis result log_count now) latest
    job ← job_repo.update_progress job 1 1 0 none none
    job_repo.mark_completed job BackgroundJobStatus.completed none

  -- `except Exception`
  unfoldable pub record_failure : BackgroundJob → ErrorAnalysis → Action env BackgroundJob
  record_failure job latest = do
    analysis_repo.save_analysis failed_analysis latest
    job ← job_repo.update_progress job 1 0 1 none none
    job_repo.mark_completed job BackgroundJobStatus.failed (some (codes "Analysis failed"))

  unfoldable pub finish_analysis : BackgroundJob → Action env AnalysisTaskResult
  finish_analysis job = do decrement_active_background_jobs job.job_type; commit; pure (ran job.id)

module _ (env : Env) where
  unfoldable pub analyze :
      BackgroundJob → ErrorGroup → List Log → ErrorAnalysis → Action env AnalysisTaskResult
  analyze job group logs latest = do
    let prompts = build_analysis_prompts env group logs
    job ←
        catch
          (do
            result ← analyze_error_group env prompts.0 prompts.1
            record_answer job latest (length logs) result)
          (λ e. record_failure job latest)
    finish_analysis job

  -- From the second look-up of the job on.
  unfoldable pub analyze_again : Text → Action env AnalysisTaskResult
  analyze_again job_id = do
    job ← job_repo.get_by_id job_id
    job ← or_raise job not_there
    group_id ← or_raise job.payload.group_id Error.key_error
    logs ← query (λ d. log_samples group_id d.logs)
    group ← group_repo.get_by_id (pos group_id)
    group ← or_raise group not_there
    latest ← analysis_repo.get_latest_for_group (pos group.id)
    latest ← or_raise latest not_there
    analyze job group logs latest

  abbrev pub start_found :
      Text → BackgroundJob → ℕ → ℕ → Option ErrorGroup → Action env AnalysisTaskResult
  start_found job_id job group_id created_by none = do
    _ ← job_repo.mark_failed job (codes "Error group not found")
    commit
    pure group_missing
  start_found job_id job group_id created_by (some group) = do
    _ ← analysis_repo.create_pending_analysis group_id created_by
    commit
    analyze_again job_id

  -- Behind the job's being marked as running.
  abbrev pub run_marked : Text → BackgroundJob → Action env AnalysisTaskResult
  run_marked job_id job = do
    group_id ← or_raise job.payload.group_id Error.key_error
    created_by ← or_raise job.payload.requested_by Error.key_error
    group ← group_repo.get_by_id (pos group_id)
    start_found job_id job group_id created_by group

  unfoldable pub run_analysis : Text → Option Text → BackgroundJob → Action env AnalysisTaskResult
  run_analysis job_id celery_task_id job = do
    job ← job_repo.mark_running job celery_task_id
    run_marked job_id job

  abbrev pub run_found : Text → Option Text → Option BackgroundJob → Action env AnalysisTaskResult
  run_found job_id celery_task_id none = pure missing
  run_found job_id celery_task_id (some job) =
      if is_done job.status
      then pure (already job.status)
      else run_analysis job_id celery_task_id job

  unfoldable pub run_analysis_with_session : Text → Option Text → Action env AnalysisTaskResult
  run_analysis_with_session job_id celery_task_id = do
    job ← job_repo.get_by_id job_id
    run_found job_id celery_task_id job

  unfoldable pub run_error_group_analysis : Text → Option Text → Action env AnalysisTaskResult
  run_error_group_analysis job_id celery_task_id =
      session_scope (run_analysis_with_session job_id celery_task_id)
