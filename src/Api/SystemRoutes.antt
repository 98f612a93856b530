-- ===== src/Api/SystemRoutes.antt =====
-- app/api/routes/system.py, jobs.py and analytics.py: each route.
use loglens_api.Base.{not, ◌&&◌, Option}
use loglens_api.Text.{Text}
use loglens_api.Errors.{Error, AppError}
use loglens_api.Effect.{Env, Action, pure, raise_if, ◌>>=◌, ◌>>◌, draw}
use loglens_api.Jobs as job_service
use loglens_api.Analytics as analytics_service
use loglens_api.Api.{Body}
use loglens_api.Api.Guards.{Requirement, admitted}

module _ (env : Env) where
  unfoldable pub health_route : Action env Body
  health_route = pure Body.health_ok

  unfoldable pub ready_route : Action env Body
  ready_route = do
    n ← draw
    raise_if (not (env.database_up n && env.redis_up n))
        (Error.app_error (AppError.not_ready (env.database_up n) (env.redis_up n)))
    pure Body.ready_ok

  unfoldable pub get_job_status_route : Option Text → Text → Action env Body
  get_job_status_route bearer job_id =
      admitted env Requirement.developer_or_admin bearer
        (λ _. do status ← job_service.get_job_status env job_id; pure (Body.job_body status))

  unfoldable pub get_analytics_summary_route : Option Text → Action env Body
  get_analytics_summary_route bearer =
      admitted env Requirement.developer_or_admin bearer
        (λ _. do summary ← analytics_service.get_summary env; pure (Body.summary_body summary))
