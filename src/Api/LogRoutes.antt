-- ===== src/Api/LogRoutes.antt =====
-- app/api/routes/logs.py: each route.
use loglens_api.Base.{Option, some, if◌then◌else◌}
use loglens_api.Text.{Text, codes}
use loglens_api.Effect.{Env, Action, pure, ◌>>=◌, ◌>>◌, bulk_ingestion}
use loglens_api.Logs as log_service
use loglens_api.Workers.Bulk.{process_bulk_with_session}
use loglens_api.Text.Decimal.{ℤ}
use loglens_api.Models.{LogIngestRequest}
use loglens_api.Logs.{BulkLogIngestRequest, LogListQuery}
use loglens_api.Jobs.{JobAcceptedResponse}
use loglens_api.Api.{Body}
use loglens_api.Api.Guards.{Requirement, admitted, delay}

module _ (env : Env) where
  abbrev pub start_bulk : Text → Action env (Unit {0})
  start_bulk job_id =
      if env.settings.celery_task_always_eager
      then (do _ ← process_bulk_with_session env job_id (some (codes "eager")); pure tt)
      else delay (bulk_ingestion job_id)

  -- Behind the creation of the job.
  abbrev pub answer_bulk : JobAcceptedResponse → Action env Body
  answer_bulk response = do start_bulk response.job_id; pure (Body.accepted_body response)

  unfoldable pub create_log_route : Option Text → LogIngestRequest → Action env Body
  create_log_route bearer payload =
      admitted env Requirement.developer_or_admin bearer
        (λ _. do log ← log_service.ingest_log env payload; pure (Body.log_body log))

  unfoldable pub create_bulk_logs_route : Option Text → BulkLogIngestRequest → Action env Body
  create_bulk_logs_route bearer payload =
      admitted env Requirement.developer_or_admin bearer (λ current_user. do
        response ← log_service.enqueue_bulk_ingestion_job env payload current_user
        answer_bulk response)

  unfoldable pub list_logs_route : Option Text → LogListQuery → Action env Body
  list_logs_route bearer q =
      admitted env Requirement.developer_or_admin bearer
        (λ _. do logs ← log_service.list_logs env q; pure (Body.log_list logs))

  unfoldable pub get_log_route : Option Text → ℤ → Action env Body
  get_log_route bearer log_id =
      admitted env Requirement.developer_or_admin bearer
        (λ _. do log ← log_service.get_log env log_id; pure (Body.log_body log))

  unfoldable pub delete_log_route : Option Text → ℤ → Action env Body
  delete_log_route bearer log_id =
      admitted env Requirement.admin_only bearer
        (λ _. do log_service.delete_log env log_id; pure Body.no_content)
