-- ===== src/System/Tasks.antt =====
-- The bulk task keeps the tables sound.
use loglens_api.Base.{
  ℕ, ◌+◌, ◌≡◌, refl, sym, subst, false, Option, some, List, [], ◌∷◌, ◌==◌, inl, inr, Bool-cases,
  Option-cases,
}
use loglens_api.Text.{Text}
use loglens_api.Text.Laws.{text_eq→eq}
use loglens_api.Table.{find_first}
use loglens_api.Table.Laws.{find_first_fits}
use loglens_api.Models.{BackgroundJob, LogIngestRequest}
use loglens_api.Models.Enums.{BackgroundJobStatus}
use loglens_api.Effect.{Env, World, Action}
use loglens_api.Effect.Keeps.{Keeps, Keeps-bind, Keeps-after}
use loglens_api.Repositories.Jobs.{has_job_id, is_active_status, mark_running, get_by_id}
use loglens_api.Jobs.{final_status}
use loglens_api.Workers.Bulk as Bulk
use loglens_api.Workers.Bulk.{
  Progress, settled_status, is_done, tally, report_progress, ingest_item, ingest_items, finish_bulk,
  run_bulk, process_bulk_with_session, process_bulk_ingestion_job,
}
use loglens_api.System.Sound.{IsSound}
use loglens_api.System.Logs.{attempt-IsSound}
use loglens_api.System.JobActions.{
  update_progress-IsSound, mark_completed-IsSound, mark_failed-IsSound, mark_running-IsSound,
}
use loglens_api.System.Reads.{read_rules}

pub ruleset task_rules = (read_rules, update_progress-IsSound, mark_failed-IsSound)

settled-ended :
    (success failure : ℕ) (logs : List LogIngestRequest)
    → is_active_status (settled_status (final_status success failure) logs) ≡ false
unfolding final_status
settled-ended success failure logs = elim (Bool-cases (failure == 0)) [
  | inl e ↦ rw e refl
  | inr e ↦ elim (Bool-cases (success == 0)) [
    | inl z ↦ rw (e, z) (settled logs)
    | inr z ↦ rw (e, z) refl
  ]
]
  where
    settled :
        (logs : List LogIngestRequest)
        → is_active_status (settled_status BackgroundJobStatus.failed logs) ≡ false
    settled [] = refl
    settled (l ∷ ls) = refl

module _ (env : Env) where
  report_progress-IsSound : (index : ℕ) (p : Progress) → Keeps IsSound (report_progress env index p)
  unfolding report_progress
  report_progress-IsSound index p = search task_rules

  ingest_item-IsSound :
      (index : ℕ) (p : Progress) (item : LogIngestRequest)
      → Keeps IsSound (ingest_item env index p item)
  unfolding ingest_item
  ingest_item-IsSound index p item = search (task_rules, attempt-IsSound, report_progress-IsSound)

  ingest_items-IsSound :
      (index : ℕ) (p : Progress) (items : List LogIngestRequest)
      → Keeps IsSound (ingest_items env index p items)
  unfolding ingest_items
  ingest_items-IsSound index p [] = search task_rules
  ingest_items-IsSound index p (item ∷ items) =
      Keeps-bind (ingest_item env index p item) (λ p'. ingest_items env (index + 1) p' items)
        (ingest_item-IsSound index p item) (λ p'. ingest_items-IsSound (index + 1) p' items)

  finish_bulk-IsSound :
      (job_id : Text) (logs : List LogIngestRequest) (p : Progress)
      → Keeps IsSound (finish_bulk env job_id logs p)
  unfolding finish_bulk
  finish_bulk-IsSound job_id logs p =
      search (task_rules, mark_completed-IsSound, settled-ended) depth 8

  bulk_marked-IsSound : (i : Text) (job : BackgroundJob) → Keeps IsSound (Bulk.run_marked env i job)
  bulk_marked-IsSound i job = search (task_rules, ingest_items-IsSound, finish_bulk-IsSound) depth 8

  -- A task whose job the worker has just read.
  abbrev pub FromRow : {A : Type 0} → (BackgroundJob → Action env A) → Type 0
  FromRow f =
      (job : BackgroundJob) (w : World env)
      → find_first (has_job_id job.id) w.working.background_jobs ≡ some job
      → IsSound w
      → IsSound (f job w).1

  run_bulk-IsSound : (i : Text) (task : Option Text) → FromRow (run_bulk env i task)
  unfolding run_bulk
  run_bulk-IsSound i task job w found h =
      Keeps-after (mark_running job task) (Bulk.run_marked env i) w
        (mark_running-IsSound job task w found h) (bulk_marked-IsSound i)

  -- The row that a look-up by id finds is found by its own id.
  pub own_row :
      (i : Text) (js : List BackgroundJob) {job : BackgroundJob}
      → find_first (has_job_id i) js ≡ some job
      → find_first (has_job_id job.id) js ≡ some job
  own_row i js {job} found =
      subst (λ k. find_first (has_job_id k) js ≡ some job)
        (sym (text_eq→eq job.id i (find_first_fits (has_job_id i) js found))) found

  pub process_bulk_with_session-IsSound :
      (i : Text) (task : Option Text) → Keeps IsSound (process_bulk_with_session env i task)
  unfolding process_bulk_with_session get_by_id
  process_bulk_with_session-IsSound i task = record {
    at = λ w h. elim (Option-cases (find_first (has_job_id i) w.working.background_jobs)) [
      | inl e ↦ rw e h
      | inr (job, e) ↦ elim (Bool-cases (is_done job.status)) [
        | inl ended ↦ rw (e, ended) h
        | inr fresh ↦
            rw (e, fresh) (run_bulk-IsSound i task job w (own_row i w.working.background_jobs e) h)
      ]
    ];
  }
