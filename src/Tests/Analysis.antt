-- ===== src/Tests/Analysis.antt =====
-- The analysis of one group.
use loglens_api.Base.{◌≤◌, ◌≡◌, refl, none, some, [], ◌∷◌, arith, length}
use loglens_api.Text.{codes, text_eq}
use loglens_api.Text.Decimal.{pos, str}
use loglens_api.Table.{find_first, insert_row}
use loglens_api.Models.{BackgroundJob}
use loglens_api.Models.Enums.{BackgroundJobStatus, BackgroundJobType}
use loglens_api.Errors.{conflict}
use loglens_api.Effect.{World, ok, err}
use loglens_api.Repositories.Jobs.{has_job_id, new_job}
use loglens_api.Repositories.Jobs as job_repo
use loglens_api.Repositories.ErrorGroups as group_repo
use loglens_api.Jobs.{
  already_running, create_job, create_new_job, increment_background_jobs_created,
}
use loglens_api.Ai.Prompt.{build_analysis_prompts}
use loglens_api.Ai.Bounds.{build_analysis_prompts_bound}
use loglens_api.Analyses.{analysis_request, create_analysis_job}
use loglens_api.Analyses.Requests.{create_analysis_job-exclusive}
use loglens_api.Workers.Analysis.{group_missing, run_error_group_analysis}
use loglens_api.Workers.Analysis.Settling.{HasCommitted, run_error_group_analysis-ends}
use loglens_api.Workers.Analysis.Refusing.{run_error_group_analysis-group_missing}
use loglens_api.Tests.Sample.{env, world_of, db, ada, outage}

abbrev requested : BackgroundJob
requested = new_job (codes "j") 5 (analysis_request 4 1)

abbrev desk : World env
desk = world_of (record (db []) { error_groups = outage ∷ []; background_jobs = requested ∷ [] })

abbrev late_desk : World env
late_desk = world_of (record (db []) { background_jobs = requested ∷ [] })

abbrev quiet_desk : World env
quiet_desk = world_of (record (db []) { error_groups = outage ∷ [] })

program : Unit {0}
unfolding text_eq find_first insert_row str create_job create_new_job create_analysis_job
    job_repo.create_job job_repo.get_active_by_scope increment_background_jobs_created
    group_repo.get_by_id
program = tt

run_error_group_analysis-ends_example :
    HasCommitted
      (codes "j")
      1
      BackgroundJobType.error_group_analysis
      desk
      (run_error_group_analysis env (codes "j") none desk)
unfolding program
run_error_group_analysis-ends_example =
    run_error_group_analysis-ends env (codes "j") none requested outage 4 1 desk refl refl refl refl
      refl refl tt

run_error_group_analysis-group_missing_example :
    let (answer, w') = run_error_group_analysis env (codes "j") none late_desk in
    (job : BackgroundJob) × (answer ≡ ok group_missing)
    × (find_first (has_job_id (codes "j")) w'.committed.background_jobs ≡ some job)
    × (job.status ≡ BackgroundJobStatus.failed)
    × (w'.committed.error_analyses ≡ [])
    × (w'.active_decrements ≡ late_desk.active_decrements)
unfolding program
run_error_group_analysis-group_missing_example =
    run_error_group_analysis-group_missing env (codes "j") none requested 4 1 late_desk refl refl
      refl refl refl refl

create_analysis_job-exclusive_example :
    let w' : World env = (create_analysis_job env (pos 4) ada quiet_desk).1 in
    create_analysis_job env (pos 4) ada w' ≡ (err (conflict already_running), w')
unfolding program
create_analysis_job-exclusive_example =
    create_analysis_job-exclusive env (pos 4) ada ada quiet_desk {id = 200 ∷ []} refl

build_analysis_prompts_bound_example : length (build_analysis_prompts env outage []).1 ≤ 20000
build_analysis_prompts_bound_example = build_analysis_prompts_bound env outage [] (omega arith)
