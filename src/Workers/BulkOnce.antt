-- ===== src/Workers/BulkOnce.antt =====
-- A bulk job that is delivered again.
use loglens_api.Base.{
  ℕ, ◌≡◌, refl, ap, ◌∙◌, true, false, Option, none, some, List, ◌∷◌, ◌==◌, Bool-cases, inl, inr,
}
use loglens_api.Text.{Text}
use loglens_api.Table.{find_first}
use loglens_api.Models.{BackgroundJob, LogIngestRequest}
use loglens_api.Effect.{Env, World, ok}
use loglens_api.Repositories.Jobs.{has_job_id, is_rival, get_by_id}
use loglens_api.Workers.Bulk.{
  already, is_done, process_bulk_with_session, process_bulk_ingestion_job,
}
use loglens_api.Workers.BulkEnds.{status_of, process_bulk-completes}

status_of-is_done : (failures : ℕ) → is_done (status_of failures) ≡ true
status_of-is_done failures = elim (Bool-cases (failures == 0)) [
  | inl e ↦ rw e refl
  | inr e ↦ rw e refl
]

module _ (env : Env) where
  process_bulk-done :
      (id : Text) (task : Option Text) (job : BackgroundJob) (w : World env)
      → find_first (has_job_id id) w.working.background_jobs ≡ some job
      → is_done job.status ≡ true
      → let (answer, w') = process_bulk_ingestion_job env id task w in
        (answer ≡ ok (already job.status)) × (w'.committed ≡ w.committed)
  unfolding process_bulk_ingestion_job process_bulk_with_session get_by_id
  process_bulk-done id task job w found ended = rw (found, ended) (refl, refl)

  session_closed :
      (id : Text) (task : Option Text) (w : World env)
      → (process_bulk_ingestion_job env id task w).1.working
        ≡ (process_bulk_ingestion_job env id task w).1.committed
  unfolding process_bulk_ingestion_job
  session_closed id task w = refl

  -- When Celery delivers a job a second time, after the run that ended it, the second run only answers
  -- the job's status: the committed tables stay as the first run left them, so no log is stored twice.
  pub process_bulk-once :
      (id : Text) (task again : Option Text) (job : BackgroundJob) (w : World env)
      {l : LogIngestRequest} {ls : List LogIngestRequest}
      → find_first (has_job_id id) w.working.background_jobs ≡ some job
      → is_done job.status ≡ false
      → find_first (is_rival job) w.working.background_jobs ≡ none
      → job.payload.logs ≡ some (l ∷ ls)
      → let w' : World env = (process_bulk_ingestion_job env id task w).1 in
        let (answer, w'') = process_bulk_ingestion_job env id again w' in
        (failures : ℕ) × (answer ≡ ok (already (status_of failures)))
        × (w''.committed ≡ w'.committed)
  process_bulk-once id task again job w {l} {ls} found fresh free logs =
      let (success, failures, job', _, _, _, row, status, _, _, _) =
        process_bulk-completes env id task job w {l = l} {ls = ls} found fresh free logs in
      let w' : World env = (process_bulk_ingestion_job env id task w).1 in
      let here : find_first (has_job_id id) w'.working.background_jobs ≡ some job' =
        ap (λ d. find_first (has_job_id id) d.background_jobs) (session_closed id task w) ∙ row in
      let (answer, tables) =
        process_bulk-done id again job' w' here (rw status (status_of-is_done failures)) in
      (failures, answer ∙ ap (λ s. ok (already s)) status, tables)
