-- ===== src/Workers/Analysis/Refusing.antt =====
-- An analysis whose group is gone when the task runs.
use loglens_api.Base.{◌≡◌, refl, sym, subst, ap, ◌∙◌, false, Option, none, some, arith, ℕ, ◌+◌}
use loglens_api.Text.{Text, codes}
use loglens_api.Text.Laws.{text_eq→eq}
use loglens_api.Text.Decimal.{pos}
use loglens_api.Table.{find_first}
use loglens_api.Table.Laws.{find_first_fits}
use loglens_api.Models.{BackgroundJob}
use loglens_api.Models.Enums.{BackgroundJobStatus}
use loglens_api.Effect.{Env, World, ok, commit}
use loglens_api.Repositories.Users.{same_id}
use loglens_api.Repositories.Jobs.{
  has_job_id, is_rival, mark_running, mark_failed, save_job, finished_job,
}
use loglens_api.Repositories.ErrorGroups as group_repo
use loglens_api.Workers.Bulk.{is_done}
use loglens_api.Workers.BulkLaws.{IsTracked, save_job-IsTracked}
use loglens_api.Workers.Analysis.{group_missing, run_analysis, run_error_group_analysis}
use loglens_api.Workers.Analysis.Starting.{mark_running-only}
use loglens_api.Workers.Analysis.Settling.{run_analysis-runs}

module _ (env : Env) where
  run_analysis-refuses :
      (id : Text) (task : Option Text) (job : BackgroundJob) (w : World env)
      {started : BackgroundJob} {g u : ℕ}
      → (mark_running job task w).0 ≡ ok started
      → started.payload.group_id ≡ some g
      → started.payload.requested_by ≡ some u
      → find_first (λ x. same_id x.id (pos g)) (mark_running job task w).1.working.error_groups
        ≡ none
      → let w1 : World env = (mark_running job task w).1 in
        run_analysis env id task job w ≡ (
          ok group_missing,
          (commit {env = env}
              (mark_failed {env = env} started (codes "Error group not found") w1).1).1,
        )
  unfolding run_analysis group_repo.get_by_id mark_failed save_job
  run_analysis-refuses id task job w marks group_id requested gone = ground arith

  mark_failed-tracked :
      (job : BackgroundJob) (summary : Text) (w : World env)
      → IsTracked job w
      → let w' : World env = (mark_failed {env = env} job summary w).1 in
        (job' : BackgroundJob) × (find_first (has_job_id job.id) w'.working.background_jobs
          ≡ some job')
        × (job'.status ≡ BackgroundJobStatus.failed)
        × (w'.working.error_analyses ≡ w.working.error_analyses)
        × (w'.active_decrements ≡ w.active_decrements)
  unfolding mark_failed save_job
  mark_failed-tracked job summary w tracked =
      let w1 : World env = record w { readings = w.readings + 1 } in
      let (_, tracked1, _) =
        save_job-IsTracked
          (finished_job BackgroundJobStatus.failed (env.clock w.readings) (some summary)) job w1
          (λ j. refl) tracked in
      (_, tracked1, refl, refl, refl)

  -- A job whose group does not exist any more ends as failed, without an analysis. It stays in the
  -- gauge of active jobs: nothing is counted down.
  pub run_error_group_analysis-group_missing :
      (id : Text) (task : Option Text) (job : BackgroundJob) (g u : ℕ) (w : World env)
      → find_first (has_job_id id) w.working.background_jobs ≡ some job
      → is_done job.status ≡ false
      → find_first (is_rival job) w.working.background_jobs ≡ none
      → job.payload.group_id ≡ some g
      → job.payload.requested_by ≡ some u
      → find_first (λ x. same_id x.id (pos g)) w.working.error_groups ≡ none
      → let (answer, w') = run_error_group_analysis env id task w in
        (job' : BackgroundJob) × (answer ≡ ok group_missing)
        × (find_first (has_job_id id) w'.committed.background_jobs ≡ some job')
        × (job'.status ≡ BackgroundJobStatus.failed)
        × (w'.committed.error_analyses ≡ w.working.error_analyses)
        × (w'.active_decrements ≡ w.active_decrements)
  run_error_group_analysis-group_missing id task job g u w found fresh free group_id requested
        gone =
      let its_id : job.id ≡ id = text_eq→eq job.id id (find_first_fits (has_job_id id) _ found) in
      let tracked : IsTracked job w =
        subst (λ i. find_first (has_job_id i) w.working.background_jobs ≡ some job) (sym its_id)
          found in
      let (
        started, marks, tracked1, id1, payload1, type1, analyses1, groups1, time1, sequences1,
        counted1,
      ) =
        mark_running-only env job task w free tracked in
      let w1 : World env = (mark_running job task w).1 in
      let ends =
        run_analysis-refuses id task job w marks (ap (λ p. p.group_id) payload1 ∙ group_id)
          (ap (λ p. p.requested_by) payload1 ∙ requested) (rw groups1 gone) in
      let (answer, committed, counted) = run_analysis-runs env id task job w found fresh in
      let (job', row, failed, analyses, decrements) =
        mark_failed-tracked started (codes "Error group not found") w1 tracked1 in
      let started_id : started.id ≡ id = id1 ∙ its_id in
      (
        job',
        answer ∙ ap (λ o. o.0) ends,
        rw (committed, ends)
            (subst
              (λ i.
                find_first (has_job_id i)
                  (mark_failed {env = env} started (codes "Error group not found")
                    w1).1.working.background_jobs
                ≡ some job')
              started_id row),
        failed,
        rw (committed, ends) (analyses ∙ analyses1),
        counted ∙ ap (λ o. o.1.active_decrements) ends ∙ decrements ∙ counted1,
      )
