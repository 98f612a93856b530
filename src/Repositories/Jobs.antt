-- ===== src/Repositories/Jobs.antt =====
-- app/repositories/background_job.py, with the two partial unique indexes of the migration
-- 20260723_04: one active job for a scope, and one job for an idempotency key.
use loglens_api.Base.{ℕ, Bool, true, false, not, ◌&&◌, ◌||◌, Option, none, some, if◌then◌else◌}
use loglens_api.Text.{Text, text_eq}
use loglens_api.Table.{find_first, update_where, insert_row}
use loglens_api.Models.{Instant, BackgroundJob, Payload}
use loglens_api.Models.Enums.{BackgroundJobStatus, BackgroundJobType, job_type_eq}
use loglens_api.Errors.{integrity_error}
use loglens_api.Effect.{
  Env, Action, pure, raise_if, ◌>>=◌, ◌>>◌, query, write, transaction_now, utc_now,
}
use loglens_api.Repositories.Users.{is_some}

-- `column == value`, which is not true of NULL.
abbrev pub same_text : Option Text → Option Text → Bool
same_text (some a) (some b) = text_eq a b
same_text (some a) none = false
same_text none b = false

abbrev pub is_active_status : BackgroundJobStatus → Bool
is_active_status BackgroundJobStatus.pending = true
is_active_status BackgroundJobStatus.running = true
is_active_status _ = false

abbrev pub has_job_id : Text → BackgroundJob → Bool
has_job_id id j = text_eq j.id id

abbrev pub has_idempotency_key : BackgroundJobType → Option Text → BackgroundJob → Bool
has_idempotency_key job_type key j =
    job_type_eq j.job_type job_type && same_text j.idempotency_key key

abbrev pub is_active_in_scope : BackgroundJobType → Option Text → BackgroundJob → Bool
is_active_in_scope job_type scope j =
    job_type_eq j.job_type job_type && same_text j.scope_key scope && is_active_status j.status

-- What a caller gives for a new job.
pub record JobRequest : Type 0 where
  pub job_type : BackgroundJobType
  pub payload : Payload
  pub total_items : ℕ
  pub created_by : Option ℕ
  pub idempotency_key : Option Text
  pub scope_key : Option Text

abbrev pub new_job : Text → Instant → JobRequest → BackgroundJob
new_job id now r = record {
  id = id;
  job_type = r.job_type;
  status = BackgroundJobStatus.pending;
  payload = r.payload;
  total_items = r.total_items;
  processed_items = 0;
  success_count = 0;
  failure_count = 0;
  idempotency_key = r.idempotency_key;
  scope_key = r.scope_key;
  celery_task_id = none;
  error_summary = none;
  created_by = r.created_by;
  started_at = none;
  completed_at = none;
  created_at = now;
  updated_at = now;
}

abbrev pub or_keep {ℓ} : {A : Type ℓ} → Option A → A → A
or_keep none a = a
or_keep (some b) a = b

-- The attributes that each method sets on the job.
abbrev pub running_job : Instant → Option Text → BackgroundJob → BackgroundJob
running_job at celery_task_id j = record j {
  started_at = if is_some j.started_at then j.started_at else some at;
  status = BackgroundJobStatus.running;
  celery_task_id = celery_task_id;
}

abbrev pub progressed_job : ℕ → ℕ → ℕ → Option Payload → Option Text → BackgroundJob → BackgroundJob
progressed_job processed success failure payload summary j = record j {
  processed_items = processed;
  success_count = success;
  failure_count = failure;
  payload = or_keep payload j.payload;
  error_summary = if is_some summary then summary else j.error_summary;
}

abbrev pub finished_job :
    BackgroundJobStatus → Instant → Option Text → BackgroundJob → BackgroundJob
finished_job status at summary j = record j {
  status = status;
  completed_at = some at;
  error_summary = summary;
}

-- Another active job of the same scope.
abbrev pub is_rival : BackgroundJob → BackgroundJob → Bool
is_rival job j = is_active_in_scope job.job_type job.scope_key j && not (text_eq j.id job.id)

module _ {env : Env} where
  unfoldable pub get_by_id : Text → Action env (Option BackgroundJob)
  get_by_id job_id = query (λ d. find_first (has_job_id job_id) d.background_jobs)

  unfoldable pub create_job : Text → JobRequest → Action env BackgroundJob
  create_job job_id r = do
    now ← transaction_now
    same_id ← query (λ d. find_first (has_job_id job_id) d.background_jobs)
    same_key ←
        query (λ d. find_first (has_idempotency_key r.job_type r.idempotency_key) d.background_jobs)
    same_scope ←
        query (λ d. find_first (is_active_in_scope r.job_type r.scope_key) d.background_jobs)
    raise_if (is_some same_id || is_some same_key || is_some same_scope) integrity_error
    let job = new_job job_id now r
    write (λ d. record d { background_jobs = insert_row job d.background_jobs })
    pure job

  unfoldable pub get_by_job_type_and_idempotency_key :
      BackgroundJobType → Text → Action env (Option BackgroundJob)
  get_by_job_type_and_idempotency_key job_type key =
      query (λ d. find_first (has_idempotency_key job_type (some key)) d.background_jobs)

  unfoldable pub get_active_by_scope : BackgroundJobType → Text → Action env (Option BackgroundJob)
  get_active_by_scope job_type scope =
      query (λ d. find_first (is_active_in_scope job_type (some scope)) d.background_jobs)

  -- The attributes of a loaded job are set and flushed; `updated_at` follows by `onupdate`.
  unfoldable pub save_job :
      (BackgroundJob → BackgroundJob) → BackgroundJob → Action env BackgroundJob
  save_job change job = do
    now ← transaction_now
    let stamped = λ (j : BackgroundJob). record (change j) { updated_at = now }
    write (λ d. record d {
      background_jobs = update_where (has_job_id job.id) stamped d.background_jobs;
    })
    pure (stamped job)

  abbrev pub start_time : Option Instant → Action env Instant
  start_time none = utc_now
  start_time (some at) = pure at

  unfoldable pub mark_running : BackgroundJob → Option Text → Action env BackgroundJob
  unfolding save_job
  mark_running job celery_task_id = do
    at ← start_time job.started_at
    rival ← query (λ d. find_first (is_rival job) d.background_jobs)
    raise_if (is_some rival) integrity_error
    save_job (running_job at celery_task_id) job

  unfoldable pub update_progress :
      BackgroundJob → ℕ → ℕ → ℕ → Option Payload → Option Text → Action env BackgroundJob
  unfolding save_job
  update_progress job processed success failure payload summary =
      save_job (progressed_job processed success failure payload summary) job

  unfoldable pub mark_completed :
      BackgroundJob → BackgroundJobStatus → Option Text → Action env BackgroundJob
  unfolding save_job
  mark_completed job status summary = do at ← utc_now; save_job (finished_job status at summary) job

  unfoldable pub mark_failed : BackgroundJob → Text → Action env BackgroundJob
  unfolding save_job
  mark_failed job summary = do
    at ← utc_now
    save_job (finished_job BackgroundJobStatus.failed at (some summary)) job
