-- ===== src/Jobs.antt =====
-- app/services/jobs.py: creating jobs, and the status that a job ends with.
pub mod Create
use loglens_api.Base.{
  ℕ, suc, zero, ◌+◌, Bool, true, false, not, ◌&&◌, Option, none, some, ◌==◌, if◌then◌else◌,
}
use loglens_api.Text.{Text, codes, text_eq}
use loglens_api.Models.{Instant, BackgroundJob, Payload}
use loglens_api.Models.Enums.{BackgroundJobStatus, BackgroundJobType, job_type_eq}
use loglens_api.Errors.{conflict, not_found}
use loglens_api.Effect.{
  Env, World, Action, ok, err, pure, raise, or_raise, raise_if, ◌>>=◌, ◌>>◌, commit, draw,
}
use loglens_api.Repositories.Jobs as job_repo
use loglens_api.Repositories.Jobs.{JobRequest}
use loglens_api.Repositories.Users.{is_some}

-- app/schemas/job.py
pub record JobAcceptedResponse : Type 0 where
  pub job_id : Text
  pub status : BackgroundJobStatus

pub record JobStatusResponse : Type 0 where
  pub job_id : Text
  pub status : BackgroundJobStatus
  pub total_items : ℕ
  pub processed_items : ℕ
  pub success_count : ℕ
  pub failure_count : ℕ
  pub created_at : Instant
  pub started_at : Option Instant
  pub completed_at : Option Instant
  pub error_summary : Option Text

-- Both hashes are there and they differ.
abbrev pub hashes_differ : Option Text → Option Text → Bool
hashes_differ (some a) (some b) = not (text_eq a b)
hashes_differ (some a) none = false
hashes_differ none b = false

-- `Counter.inc` for one label.
abbrev pub bump : BackgroundJobType → (BackgroundJobType → ℕ) → BackgroundJobType → ℕ
bump t f u = if job_type_eq u t then f u + 1 else f u

-- app/observability/metrics.py: the two that track jobs.
unfoldable pub increment_background_jobs_created :
    {env : Env} → BackgroundJobType → Action env (Unit {0})
increment_background_jobs_created t w = (ok tt, record w { jobs_created = bump t w.jobs_created })

unfoldable pub decrement_active_background_jobs :
    {env : Env} → BackgroundJobType → Action env (Unit {0})
decrement_active_background_jobs t w =
    (ok tt, record w { active_decrements = bump t w.active_decrements })

unfoldable pub final_status : ℕ → ℕ → BackgroundJobStatus
final_status success_count failure_count =
    if failure_count == 0
    then BackgroundJobStatus.completed
    else if success_count == 0
    then BackgroundJobStatus.failed
    else BackgroundJobStatus.partially_completed

abbrev pub to_accepted_response : BackgroundJob → JobAcceptedResponse
to_accepted_response job = record { job_id = job.id; status = job.status }

abbrev pub to_status_response : BackgroundJob → JobStatusResponse
to_status_response job = record {
  job_id = job.id;
  status = job.status;
  total_items = job.total_items;
  processed_items = job.processed_items;
  success_count = job.success_count;
  failure_count = job.failure_count;
  created_at = job.created_at;
  started_at = job.started_at;
  completed_at = job.completed_at;
  error_summary = job.error_summary;
}

abbrev pub key_reused : Text
key_reused = codes "Idempotency key was already used for a different request."

abbrev pub already_running : Text
already_running = codes "A job is already running for this resource."

module _ (env : Env) where
  abbrev pub find_existing : JobRequest → Option Text → Action env (Option BackgroundJob)
  find_existing r none = pure none
  find_existing r (some key) = job_repo.get_by_job_type_and_idempotency_key r.job_type key

  abbrev pub find_active : JobRequest → Option Text → Action env (Option BackgroundJob)
  find_active r none = pure none
  find_active r (some scope) = job_repo.get_active_by_scope r.job_type scope

  -- Behind the row of the new job.
  abbrev pub count_and_commit : JobRequest → BackgroundJob → Action env BackgroundJob
  count_and_commit r job = do increment_background_jobs_created r.job_type; commit; pure job

  -- Behind the look-up of an active job of the scope.
  abbrev pub create_unless : JobRequest → Option BackgroundJob → Action env BackgroundJob
  create_unless r active = do
    raise_if (is_some active) (conflict already_running)
    n ← draw
    job ← job_repo.create_job (env.uuid4 n) r
    count_and_commit r job

  unfoldable pub create_new_job : JobRequest → Action env BackgroundJob
  create_new_job r = do active ← find_active r r.scope_key; create_unless r active

  abbrev pub reuse_or_create : JobRequest → Option BackgroundJob → Action env BackgroundJob
  reuse_or_create r none = create_new_job r
  reuse_or_create r (some existing) = do
    raise_if (hashes_differ existing.payload.request_hash r.payload.request_hash)
        (conflict key_reused)
    pure existing

  unfoldable pub create_job : JobRequest → Action env BackgroundJob
  create_job r = do existing ← find_existing r r.idempotency_key; reuse_or_create r existing

  unfoldable pub get_job : Text → Action env BackgroundJob
  get_job job_id = do
    job ← job_repo.get_by_id job_id
    or_raise job (not_found (codes "BackgroundJob"))

  unfoldable pub get_job_status : Text → Action env JobStatusResponse
  get_job_status job_id = do job ← get_job job_id; pure (to_status_response job)
