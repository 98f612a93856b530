-- ===== src/Workers/Analysis/Starting.antt =====
-- How the task starts: what `mark_running` and the new analysis leave as it was.
use loglens_api.Base.{ℕ, ◌≡◌, refl, ap, ◌∙◌, Option, none, some}
use loglens_api.Text.{Text}
use loglens_api.Table.{find_first}
use loglens_api.Models.{Instant, BackgroundJob}
use loglens_api.Effect.{Env, World, ok}
use loglens_api.Repositories.Jobs.{is_rival, mark_running, running_job, save_job, start_time}
use loglens_api.Workers.BulkLaws.{IsTracked, save_job-IsTracked}
use loglens_api.Workers.BulkEnds.{mark_running-runs}

module _ (env : Env) where
  start_time-only :
      (started_at : Option Instant) (w : World env)
      → (at : Instant) × (n : ℕ) × (start_time {env = env} started_at w
          ≡ (ok at, record w { readings = n }))
  start_time-only none w = (_, _, refl)
  start_time-only (some at) w = (at, w.readings, refl)

  -- `mark_running` in one step, if no rival is active.
  mark_running-saves :
      (job : BackgroundJob) (task : Option Text) (w : World env)
      → find_first (is_rival job) w.working.background_jobs ≡ none
      → (at : Instant) × (n : ℕ) × (mark_running job task w
          ≡ save_job (running_job at task) job (record w { readings = n }))
  mark_running-saves job task w free =
      let (at, n, given) = start_time-only job.started_at w in
      (
        at,
        n,
        mark_running-runs env job task w (ap (λ r. r.0) given) (ap (λ r. r.1.working) given) free
            ∙ ap (λ r. save_job (running_job at task) job r.1) given,
      )

  -- What `mark_running` leaves as it was.
  pub mark_running-only :
      (job : BackgroundJob) (task : Option Text) (w : World env)
      → find_first (is_rival job) w.working.background_jobs ≡ none
      → IsTracked job w
      → let (answer, w') = mark_running job task w in
        (job' : BackgroundJob) × (answer ≡ ok job')
        × IsTracked job' w'
        × (job'.id ≡ job.id)
        × (job'.payload ≡ job.payload)
        × (job'.job_type ≡ job.job_type)
        × (w'.working.error_analyses ≡ w.working.error_analyses)
        × (w'.working.error_groups ≡ w.working.error_groups)
        × (w'.transaction_time ≡ w.transaction_time)
        × (w'.sequences ≡ w.sequences)
        × (w'.active_decrements ≡ w.active_decrements)
  unfolding save_job
  mark_running-only job task w free tracked =
      let (at, n, saves) = mark_running-saves job task w free in
      let w1 : World env = record w { readings = n } in
      let (answer, tracked1, _) =
        save_job-IsTracked (running_job at task) job w1 (λ j. refl) tracked in
      rw saves (_, answer, tracked1, refl, refl, refl, refl, refl, refl, refl, refl)
