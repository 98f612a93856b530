-- ===== src/System/JobActions.antt =====
-- What is done to a job keeps the tables sound.
use loglens_api.Base.{
  ℕ, ◌+◌, ◌≡◌, refl, Bool, true, false, Option, none, some, List, inl, inr, Option-cases,
  Bool-cases, All,
}
use loglens_api.Text.{Text}
use loglens_api.Table.{find_first, update_where}
use loglens_api.Table.Laws.{All-update_where}
use loglens_api.Models.{BackgroundJob, Payload, Instant}
use loglens_api.Models.Enums.{BackgroundJobStatus}
use loglens_api.Effect.{Env, World, Db, Sequences, QueuedTask}
use loglens_api.Effect.Keeps.{Keeps}
use loglens_api.Repositories.Jobs.{
  has_job_id, is_active_status, is_rival, running_job, save_job, progressed_job, finished_job,
  update_progress, mark_completed, mark_failed, mark_running,
}
use loglens_api.System.Sound.{HasJob, JobsAreSound, DbIsSound, IsSound}
use loglens_api.System.JobRows.{update-JobsAreSound, update_by_keys-JobsAreSound}
use loglens_api.System.Jobs.{runs, running-ScopesAreExclusive}

pub jobs-DbIsSound :
    {s : Sequences} {q : List QueuedTask} {d : Db} {js : List BackgroundJob}
    → DbIsSound s q d
    → JobsAreSound q js
    → DbIsSound s q (record d { background_jobs = js })
jobs-DbIsSound h jobs = record {
  users = h.users;
  tokens = h.tokens;
  logs = h.logs;
  jobs = jobs;
  analyses = h.analyses;
}

-- A change of rows that keeps their ids keeps that they are known to all.
known-update_where :
    (known js : List BackgroundJob) (p : BackgroundJob → Bool) (f : BackgroundJob → BackgroundJob)
    → ((j : BackgroundJob) → (f j).id ≡ j.id)
    → All (λ j. HasJob j.id known) js
    → All (λ j. HasJob j.id known) (update_where p f js)
known-update_where known js p f id h =
    All-update_where _ _ p f js
      (λ j k. elim (Bool-cases (p j)) [ inl e ↦ rw (e, id j) k | inr e ↦ rw e k ]) h

module _ {env : Env} where
  pub save_job-IsSound :
      (change : BackgroundJob → BackgroundJob) (job : BackgroundJob)
      → ((j : BackgroundJob) → (change j).id ≡ j.id)
      → ((j : BackgroundJob) → (change j).job_type ≡ j.job_type)
      → ((j : BackgroundJob) → (change j).idempotency_key ≡ j.idempotency_key)
      → ((j : BackgroundJob) → (change j).scope_key ≡ j.scope_key)
      → ((j : BackgroundJob)
          → is_active_status (change j).status ≡ true
          → is_active_status j.status ≡ true)
      → Keeps IsSound (save_job {env = env} change job)
  unfolding save_job
  save_job-IsSound change job id type_kept key scope status = record {
    at = λ w h. (
      h.0,
      jobs-DbIsSound h.1 (
          update-JobsAreSound w.queue w.working.background_jobs h.1.jobs _ _ id type_kept key scope
            status),
      known-update_where w.committed.background_jobs w.working.background_jobs _ _ id h.2,
    );
  }

  pub update_progress-IsSound :
      (job : BackgroundJob) (processed success failure : ℕ) (payload : Option Payload)
      (summary : Option Text)
      → Keeps IsSound (update_progress {env = env} job processed success failure payload summary)
  unfolding update_progress
  update_progress-IsSound job processed success failure payload summary =
      save_job-IsSound (progressed_job processed success failure payload summary) job (λ j. refl)
        (λ j. refl) (λ j. refl) (λ j. refl) (λ j e. e)

  finish-IsSound :
      (job : BackgroundJob) (status : BackgroundJobStatus) (at : Instant) (summary : Option Text)
      → is_active_status status ≡ false
      → Keeps IsSound (save_job {env = env} (finished_job status at summary) job)
  finish-IsSound job status at summary ended =
      save_job-IsSound _ job (λ j. refl) (λ j. refl) (λ j. refl) (λ j. refl)
        (λ j e. absurd (cc (ended, e)))

  pub mark_completed-IsSound :
      (job : BackgroundJob) (status : BackgroundJobStatus) (summary : Option Text)
      → is_active_status status ≡ false
      → Keeps IsSound (mark_completed {env = env} job status summary)
  unfolding mark_completed
  mark_completed-IsSound job status summary ended = record {
    at = λ w h.
        (finish-IsSound job status (env.clock w.readings) summary ended).at
          (record w { readings = w.readings + 1 }) h;
  }

  pub mark_failed-IsSound :
      (job : BackgroundJob) (summary : Text) → Keeps IsSound (mark_failed {env = env} job summary)
  unfolding mark_failed
  mark_failed-IsSound job summary = record {
    at = λ w h.
        (finish-IsSound job BackgroundJobStatus.failed (env.clock w.readings) (some summary)
            refl).at
          (record w { readings = w.readings + 1 }) h;
  }

  save_running-IsSound :
      (job : BackgroundJob) (at : Instant) (task : Option Text) (w : World env)
      → find_first (has_job_id job.id) w.working.background_jobs ≡ some job
      → find_first (is_rival job) w.working.background_jobs ≡ none
      → IsSound w
      → IsSound (save_job {env = env} (running_job at task) job w).1
  unfolding save_job
  save_running-IsSound job at task w found free h =
      let js = w.working.background_jobs in
      (
        h.0,
        jobs-DbIsSound h.1 (
            update_by_keys-JobsAreSound w.queue js h.1.jobs (has_job_id job.id)
              (runs at task w.transaction_time) (λ j. refl) (λ j. refl) (λ j. refl)
              (running-ScopesAreExclusive w.queue js h.1.jobs job found free at task
                w.transaction_time)),
        known-update_where w.committed.background_jobs js (has_job_id job.id)
            (runs at task w.transaction_time) (λ j. refl) h.2,
      )

  -- A job is set running only as it stands in the table.
  pub mark_running-IsSound :
      (job : BackgroundJob) (task : Option Text) (w : World env)
      → find_first (has_job_id job.id) w.working.background_jobs ≡ some job
      → IsSound w
      → IsSound (mark_running {env = env} job task w).1
  unfolding mark_running
  mark_running-IsSound job task w found h =
      elim (Option-cases (find_first (is_rival job) w.working.background_jobs)) [
        | inr (x, rival) ↦ elim (Option-cases job.started_at) [
          | inl e ↦ rw (e, rival) h
          | inr (at, e) ↦ rw (e, rival) h
        ]
        | inl free ↦ elim (Option-cases job.started_at) [
          | inl e ↦
              rw (e, free)
                (save_running-IsSound job (env.clock w.readings) task
                  (record w { readings = w.readings + 1 }) found free h)
          | inr (at, e) ↦ rw (e, free) (save_running-IsSound job at task w found free h)
        ]
      ]
