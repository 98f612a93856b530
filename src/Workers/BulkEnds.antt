-- ===== src/Workers/BulkEnds.antt =====
-- How a run of the bulk ingestion job starts and ends.
use loglens_api.Base.{
  ℕ, ◌+◌, ◌≡◌, refl, sym, subst, false, Option, none, some, List, [], ◌∷◌, inl, inr, Bool-cases,
  arith, ap, ◌∙◌, length, if◌then◌else◌, ◌==◌,
}
use loglens_api.Text.{Text}
use loglens_api.Text.Laws.{text_eq→eq}
use loglens_api.Table.{find_first}
use loglens_api.Table.Laws.{find_first_fits}
use loglens_api.Models.{Instant, BackgroundJob, LogIngestRequest}
use loglens_api.Models.Enums.{BackgroundJobStatus}
use loglens_api.Effect.{Env, World, ok, commit}
use loglens_api.Repositories.Jobs.{
  has_job_id, is_rival, get_by_id, save_job, start_time, mark_running, mark_completed, running_job,
  finished_job,
}
use loglens_api.Jobs.{final_status, decrement_active_background_jobs}
use loglens_api.Workers.Bulk.{
  Progress, done, is_done, valid_logs, settled_status, summary_of, ingest_items, finish_bulk,
  run_bulk, process_bulk_with_session, process_bulk_ingestion_job,
}
use loglens_api.Workers.BulkLaws.{IsTracked, save_job-IsTracked, ingest_items-counts}

-- The status of a job that had items, by how many of them failed.
abbrev pub status_of : ℕ → BackgroundJobStatus
status_of failure_count =
    if failure_count == 0
    then BackgroundJobStatus.completed
    else BackgroundJobStatus.partially_completed

settled_status-of :
    (s f : ℕ) (l : LogIngestRequest) (ls : List LogIngestRequest)
    → settled_status (final_status s f) (l ∷ ls) ≡ status_of f
unfolding final_status
settled_status-of s f l ls = elim (Bool-cases (f == 0)) [
  | inl none_failed ↦ rw none_failed refl
  | inr some_failed ↦ elim (Bool-cases (s == 0)) [
    | inl all_failed ↦ rw (some_failed, all_failed) refl
    | inr both ↦ rw (some_failed, both) refl
  ]
]

abbrev first_progress : BackgroundJob → Progress
first_progress job = record { job = job; success_count = 0; failures = [] }

is_found_at :
    {a b : Text} {job : BackgroundJob} (jobs : List BackgroundJob)
    → a ≡ b
    → find_first (has_job_id a) jobs ≡ some job
    → find_first (has_job_id b) jobs ≡ some job
is_found_at {job} jobs e h = subst (λ i. find_first (has_job_id i) jobs ≡ some job) e h

module _ (env : Env) where
  start_time-gives :
      (started_at : Option Instant) (w : World env)
      → (at : Instant) × ((start_time {env = env} started_at w).0 ≡ ok at)
        × ((start_time {env = env} started_at w).1.working ≡ w.working)
  start_time-gives none w = (_, refl, refl)
  start_time-gives (some at) w = (_, refl, refl)

  pub mark_running-runs :
      (job : BackgroundJob) (task : Option Text) (w : World env) {at : Instant}
      → (start_time {env = env} job.started_at w).0 ≡ ok at
      → (start_time {env = env} job.started_at w).1.working ≡ w.working
      → find_first (is_rival job) w.working.background_jobs ≡ none
      → mark_running job task w
        ≡ save_job (running_job at task) job (start_time {env = env} job.started_at w).1
  unfolding mark_running
  mark_running-runs job task w given same free = ground arith

  mark_running-step :
      (job : BackgroundJob) (task : Option Text) (w : World env)
      → IsTracked job w
      → find_first (is_rival job) w.working.background_jobs ≡ none
      → let (answer, w') = mark_running job task w in
        (job' : BackgroundJob) × (answer ≡ ok job')
        × IsTracked job' w'
        × (w'.working.logs ≡ w.working.logs)
        × (job'.payload ≡ job.payload)
        × (job'.id ≡ job.id)
  mark_running-step job task w tracked free =
      let (at, given, same) = start_time-gives job.started_at w in
      let w1 : World env = (start_time job.started_at w).1 in
      let (answer, found, logs) =
        save_job-IsTracked (running_job at task) job w1 (λ j. refl) (rw same tracked) in
      rw (mark_running-runs job task w given same free)
        (_, answer, found, logs ∙ ap (λ d. d.logs) same, refl, refl)

  -- The state after `mark_running` and the commit behind it.
  abbrev marked : BackgroundJob → Option Text → World env → World env
  marked job task w = (commit {env = env} (mark_running {env = env} job task w).1).1

  finish_bulk-step :
      (id : Text) (logs : List LogIngestRequest) (p : Progress) (w : World env)
      → IsTracked p.job w
      → let status = settled_status (final_status p.success_count (length p.failures)) logs in
        let (answer, w') = finish_bulk env id logs p w in
        (job : BackgroundJob) × (answer ≡ ok (done id p.success_count (length p.failures) status))
        × (find_first (has_job_id p.job.id) w'.committed.background_jobs ≡ some job)
        × (job.status ≡ status)
        × (job.processed_items ≡ p.job.processed_items)
        × (job.success_count ≡ p.job.success_count)
        × (job.failure_count ≡ p.job.failure_count)
        × (w'.committed.logs ≡ w.working.logs)
  unfolding finish_bulk mark_completed decrement_active_background_jobs save_job
  finish_bulk-step id logs p w tracked =
      let status = settled_status (final_status p.success_count (length p.failures)) logs in
      let w1 : World env = record w { readings = w.readings + 1 } in
      let (answer, found, same_logs) =
        save_job-IsTracked
          (finished_job status (env.clock w.readings) (summary_of (length p.failures))) p.job w1
          (λ j. refl) tracked in
      (_, refl, found, refl, refl, refl, refl, same_logs)

  run_bulk-starts :
      (id : Text) (task : Option Text) (job : BackgroundJob) (w : World env)
      {started : BackgroundJob} {logs : List LogIngestRequest} {p : Progress}
      → (mark_running job task w).0 ≡ ok started
      → valid_logs started.payload ≡ some logs
      → (ingest_items env 0 (first_progress started) logs (marked job task w)).0 ≡ ok p
      → run_bulk env id task job w
        ≡ finish_bulk env id logs p
            (ingest_items env 0 (first_progress started) logs (marked job task w)).1
  unfolding run_bulk
  run_bulk-starts id task job w marks valid loop = ground arith

  process_bulk-runs :
      (id : Text) (task : Option Text) (job : BackgroundJob) (w : World env)
      → find_first (has_job_id id) w.working.background_jobs ≡ some job
      → is_done job.status ≡ false
      → (process_bulk_ingestion_job env id task w).0 ≡ (run_bulk env id task job w).0
        × ((process_bulk_ingestion_job env id task w).1.committed
            ≡ (run_bulk env id task job w).1.committed)
  unfolding process_bulk_ingestion_job process_bulk_with_session get_by_id
  process_bulk-runs id task job w found fresh = rw (found, fresh) (refl, refl)

  -- A job that was not done, with logs in its payload and no rival in its scope, runs to its end.
  -- Every log of the payload was counted, as stored or as failed, and as many were added as were
  -- stored; the job's row shows the counts, and is completed if nothing failed and partially completed
  -- otherwise. All of it is committed.
  pub process_bulk-completes :
      (id : Text) (task : Option Text) (job : BackgroundJob) (w : World env) {l : LogIngestRequest}
      {ls : List LogIngestRequest}
      → find_first (has_job_id id) w.working.background_jobs ≡ some job
      → is_done job.status ≡ false
      → find_first (is_rival job) w.working.background_jobs ≡ none
      → job.payload.logs ≡ some (l ∷ ls)
      → let (answer, w') = process_bulk_ingestion_job env id task w in
        (success : ℕ) × (failure : ℕ) × (job' : BackgroundJob) × (answer
          ≡ ok (done id success failure (status_of failure)))
        × (success + failure ≡ length (l ∷ ls))
        × (length w'.committed.logs ≡ length w.working.logs + success)
        × (find_first (has_job_id id) w'.committed.background_jobs ≡ some job')
        × (job'.status ≡ status_of failure)
        × (job'.processed_items ≡ length (l ∷ ls))
        × (job'.success_count ≡ success)
        × (job'.failure_count ≡ failure)
  process_bulk-completes id task job w {l} {ls} found fresh free some_logs =
      let same_id : job.id ≡ id = text_eq→eq job.id id (find_first_fits (has_job_id id) _ found) in
      let tracked : IsTracked job w = is_found_at _ (sym same_id) found in
      let (started, marks, tracked1, logs1, payload1, id1) =
        mark_running-step job task w tracked free in
      let valid : valid_logs started.payload ≡ some (l ∷ ls) =
        ground (arith, payload1, some_logs) in
      let (p, loops, reported, logs2, counted, id2) =
        ingest_items-counts env 0 (first_progress started) l ls (marked job task w) tracked1 in
      let w2 : World env =
        (ingest_items env 0 (first_progress started) (l ∷ ls) (marked job task w)).1 in
      let (job', answer, row, status, processed, success, failure, logs3) =
        finish_bulk-step id (l ∷ ls) p w2 reported.0 in
      let (same_answer, same_state) = process_bulk-runs id task job w found fresh in
      let ends = run_bulk-starts id task job w marks valid loops in
      let settled = settled_status-of p.success_count (length p.failures) l ls in
      rw (same_answer, same_state, ends)
        (
          p.success_count,
          length p.failures,
          job',
          rw (← settled) answer,
          omega arith,
          ap length logs3 ∙ omega (arith, logs2, ap length logs1),
          is_found_at _ (id2 ∙ id1 ∙ same_id) row,
          status ∙ settled,
          omega (arith, processed, reported.1),
          success ∙ reported.2,
          failure ∙ reported.3,
        )
