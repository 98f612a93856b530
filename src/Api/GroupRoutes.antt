-- ===== src/Api/GroupRoutes.antt =====
-- app/api/routes/error_groups.py: each route.
use loglens_api.Base.{Option, some, if◌then◌else◌}
use loglens_api.Text.{Text, codes}
use loglens_api.Models.Enums.{BackgroundJobStatus}
use loglens_api.Effect.{Env, Action, pure, ◌>>=◌, ◌>>◌, group_analysis}
use loglens_api.ErrorGroups as group_service
use loglens_api.Analyses as analysis_service
use loglens_api.Workers.Analysis.{run_analysis_with_session}
use loglens_api.Text.Decimal.{ℤ}
use loglens_api.ErrorGroups.{ErrorGroupListQuery}
use loglens_api.Models.Enums.{ErrorGroupStatus}
use loglens_api.Api.{Body}
use loglens_api.Api.Guards.{Requirement, admitted, delay}

module _ (env : Env) where
  abbrev pub start_analysis : Text → Action env (Unit {0})
  start_analysis job_id =
      if env.settings.celery_task_always_eager
      then (do _ ← run_analysis_with_session env job_id (some (codes "eager")); pure tt)
      else delay (group_analysis job_id)

  -- Behind the creation of the job.
  abbrev pub answer_analysis : Text → Action env Body
  answer_analysis job_id = do
    start_analysis job_id
    pure (Body.accepted_body (record { job_id = job_id; status = BackgroundJobStatus.pending }))

  unfoldable pub list_error_groups_route : Option Text → ErrorGroupListQuery → Action env Body
  list_error_groups_route bearer q =
      admitted env Requirement.developer_or_admin bearer
        (λ _. do groups ← group_service.list_error_groups env q; pure (Body.group_list groups))

  unfoldable pub get_error_group_route : Option Text → ℤ → Action env Body
  get_error_group_route bearer group_id =
      admitted env Requirement.developer_or_admin bearer
        (λ _. do group ← group_service.get_error_group env group_id; pure (Body.group_body group))

  unfoldable pub update_error_group_status_route :
      Option Text → ℤ → ErrorGroupStatus → Action env Body
  update_error_group_status_route bearer group_id status =
      admitted env Requirement.admin_only bearer (λ _. do
        group ← group_service.update_status env group_id status
        pure (Body.group_body group))

  unfoldable pub update_error_group_assignment_route : Option Text → ℤ → Option ℤ → Action env Body
  update_error_group_assignment_route bearer group_id assigned_to =
      admitted env Requirement.developer_or_admin bearer (λ current_user. do
        group ← group_service.update_assignment env group_id assigned_to current_user
        pure (Body.group_body group))

  unfoldable pub analyze_error_group_route : Option Text → ℤ → Action env Body
  analyze_error_group_route bearer group_id =
      admitted env Requirement.developer_or_admin bearer (λ current_user. do
        job_id ← analysis_service.create_analysis_job env group_id current_user
        answer_analysis job_id)

  unfoldable pub get_latest_error_group_analysis_route : Option Text → ℤ → Action env Body
  get_latest_error_group_analysis_route bearer group_id =
      admitted env Requirement.developer_or_admin bearer (λ _. do
        analysis ← analysis_service.get_latest_analysis env group_id
        pure (Body.analysis_body analysis))

  unfoldable pub list_error_group_analyses_route : Option Text → ℤ → Action env Body
  list_error_group_analyses_route bearer group_id =
      admitted env Requirement.developer_or_admin bearer (λ _. do
        analyses ← analysis_service.list_analyses env group_id
        pure (Body.analysis_list analyses))
