-- ===== src/System/Routes.antt =====
-- Every route keeps the tables sound.
use loglens_api.Base.{Option, none, some}
use loglens_api.Text.{Text}
use loglens_api.Text.Decimal.{ℤ}
use loglens_api.Models.{User}
use loglens_api.Effect.{Env, World, Action, pure, raise, ◌>>=◌}
use loglens_api.Errors.{bad_credentials}
use loglens_api.Effect.Keeps.{Keeps, Keeps-bind, Keeps-pure, Keeps-bind_at, Keeps-after}
use loglens_api.Auth.{LoginRequest}
use loglens_api.Models.Enums.{BackgroundJobStatus}
use loglens_api.Logs.{BulkLogIngestRequest, enqueue_bulk_ingestion_job}
use loglens_api.Analyses.{create_analysis_job}
use loglens_api.Api.{Request, Body}
use loglens_api.Api.Guards.{Requirement, admit, admitted}
use loglens_api.Api.AuthRoutes.{
  form_credentials, register_route, login_route, login_for_access_token_route, refresh_route,
  logout_route, logout_all_route, me_route,
}
use loglens_api.Api.LogRoutes.{
  start_bulk, answer_bulk, create_log_route, create_bulk_logs_route, list_logs_route, get_log_route,
  delete_log_route,
}
use loglens_api.Api.GroupRoutes.{
  start_analysis, answer_analysis, list_error_groups_route, get_error_group_route,
  update_error_group_status_route, update_error_group_assignment_route, analyze_error_group_route,
  get_latest_error_group_analysis_route, list_error_group_analyses_route,
}
use loglens_api.Api.UserRoutes.{list_users_route, update_user_role_route, update_user_status_route}
use loglens_api.Api.SystemRoutes.{
  health_route, ready_route, get_job_status_route, get_analytics_summary_route,
}
use loglens_api.Api.Routes.{handle, run}
use loglens_api.System.Sound.{IsSound}
use loglens_api.System.Steps.{step_rules, session_scope-IsSound}
use loglens_api.System.Sessions.{
  register_user-IsSound, login_user-IsSound, refresh_session-IsSound, logout-IsSound,
  logout_all-IsSound, admit-IsSound,
}
use loglens_api.System.Services.{
  update_user_role-IsSound, update_user_status-IsSound, list_users-IsSound, get_error_group-IsSound,
  list_error_groups-IsSound, update_group_status-IsSound, update_group_assignment-IsSound,
  ingest_log-IsSound, get_log-IsSound, delete_log_service-IsSound, list_logs-IsSound,
  get_job_status-IsSound, get_latest_analysis-IsSound, list_analyses-IsSound, get_summary-IsSound,
}
use loglens_api.System.Requests.{
  enqueue-Yields, create_analysis_job-Yields, start_bulk-IsSound, start_analysis-IsSound,
}

ruleset service_rules = (
  step_rules, register_user-IsSound, login_user-IsSound, refresh_session-IsSound, logout-IsSound,
  logout_all-IsSound, update_user_role-IsSound, update_user_status-IsSound, list_users-IsSound,
  get_error_group-IsSound, list_error_groups-IsSound, update_group_status-IsSound,
  update_group_assignment-IsSound, ingest_log-IsSound, get_log-IsSound, delete_log_service-IsSound,
  list_logs-IsSound, get_job_status-IsSound, get_latest_analysis-IsSound, list_analyses-IsSound,
  get_summary-IsSound,
)

module _ (env : Env) where
  admitted-IsSound :
      (q : Requirement) (bearer : Option Text) (route : User → Action env Body)
      → ((u : User) → Keeps IsSound (route u))
      → Keeps IsSound (admitted env q bearer route)
  unfolding admitted
  admitted-IsSound q bearer route keeps =
      Keeps-bind (admit env q bearer) route (admit-IsSound env q bearer) keeps

  form_credentials-IsSound :
      (username password : Text) → Keeps IsSound (form_credentials env username password)
  form_credentials-IsSound username password =
      elim (env.validate_login username password)
        as (λ o. Keeps IsSound (elim o as (λ _. Action env LoginRequest) [
          | none ↦ raise bad_credentials
          | some (email, given) ↦ pure (record { email = email; password = given })
        ])) [ none ↦ search step_rules | some v ↦ search step_rules ]

  bulk_accepted-IsSound :
      (p : BulkLogIngestRequest) (u : User)
      → Keeps IsSound (enqueue_bulk_ingestion_job env p u >>= answer_bulk env)
  bulk_accepted-IsSound p u =
      Keeps-bind_at (enqueue_bulk_ingestion_job env p u) (answer_bulk env)
        (record { at = λ w h. (enqueue-Yields env p u w h).0 })
        λ w response h made.
          let w' : World env = (enqueue_bulk_ingestion_job env p u w).1 in
          let (kept, there) = enqueue-Yields env p u w h in
          Keeps-after {P = IsSound} (start_bulk env response.job_id)
            (λ _. pure (Body.accepted_body response)) w'
            (start_bulk-IsSound env response.job_id w' kept (there response made))
            λ _. Keeps-pure (Body.accepted_body response)

  analysis_accepted-IsSound :
      (z : ℤ) (u : User) → Keeps IsSound (create_analysis_job env z u >>= answer_analysis env)
  analysis_accepted-IsSound z u =
      Keeps-bind_at (create_analysis_job env z u) (answer_analysis env)
        (record { at = λ w h. (create_analysis_job-Yields env z u w h).0 })
        λ w job_id h made.
          let w' : World env = (create_analysis_job env z u w).1 in
          let (kept, there) = create_analysis_job-Yields env z u w h in
          Keeps-after {P = IsSound} (start_analysis env job_id)
            (λ _. pure (
              Body.accepted_body
                (record { job_id = job_id; status = BackgroundJobStatus.pending })))
            w' (start_analysis-IsSound env job_id w' kept (there job_id made))
            λ _. Keeps-pure (
              Body.accepted_body (record { job_id = job_id; status = BackgroundJobStatus.pending }))

  handle-IsSound : (r : Request) → Keeps IsSound (handle env r)
  unfolding handle health_route ready_route get_job_status_route get_analytics_summary_route
      register_route login_route login_for_access_token_route refresh_route logout_route
      logout_all_route me_route create_log_route create_bulk_logs_route list_logs_route
      get_log_route delete_log_route list_error_groups_route get_error_group_route
      update_error_group_status_route update_error_group_assignment_route analyze_error_group_route
      get_latest_error_group_analysis_route list_error_group_analyses_route list_users_route
      update_user_role_route update_user_status_route
  handle-IsSound Request.health = search service_rules
  handle-IsSound Request.ready = search service_rules
  handle-IsSound (Request.register email password) = search service_rules
  handle-IsSound (Request.login host payload) = search service_rules
  handle-IsSound (Request.login_for_access_token host username password) =
      search (service_rules, form_credentials-IsSound)
  handle-IsSound (Request.refresh token) = search service_rules
  handle-IsSound (Request.logout token) = search service_rules
  handle-IsSound (Request.create_bulk_logs bearer p) =
      admitted-IsSound _ bearer _ (bulk_accepted-IsSound p)
  handle-IsSound (Request.analyze_error_group bearer z) =
      admitted-IsSound _ bearer _ (analysis_accepted-IsSound z)
  handle-IsSound (Request.logout_all bearer) = search (service_rules, admitted-IsSound)
  handle-IsSound (Request.me bearer) = search (service_rules, admitted-IsSound)
  handle-IsSound (Request.create_log bearer p) = search (service_rules, admitted-IsSound)
  handle-IsSound (Request.list_logs bearer q) = search (service_rules, admitted-IsSound)
  handle-IsSound (Request.get_log bearer z) = search (service_rules, admitted-IsSound)
  handle-IsSound (Request.delete_log bearer z) = search (service_rules, admitted-IsSound)
  handle-IsSound (Request.list_error_groups bearer q) = search (service_rules, admitted-IsSound)
  handle-IsSound (Request.get_error_group bearer z) = search (service_rules, admitted-IsSound)
  handle-IsSound (Request.update_error_group_status bearer z s) =
      search (service_rules, admitted-IsSound)
  handle-IsSound (Request.update_error_group_assignment bearer z u) =
      search (service_rules, admitted-IsSound)
  handle-IsSound (Request.get_latest_error_group_analysis bearer z) =
      search (service_rules, admitted-IsSound)
  handle-IsSound (Request.list_error_group_analyses bearer z) =
      search (service_rules, admitted-IsSound)
  handle-IsSound (Request.list_users bearer) = search (service_rules, admitted-IsSound)
  handle-IsSound (Request.update_user_role bearer z r) = search (service_rules, admitted-IsSound)
  handle-IsSound (Request.update_user_status bearer z a) = search (service_rules, admitted-IsSound)
  handle-IsSound (Request.get_job_status bearer i) = search (service_rules, admitted-IsSound)
  handle-IsSound (Request.get_analytics_summary bearer) = search (service_rules, admitted-IsSound)

  -- A request with its session.
  pub run-IsSound : (r : Request) → Keeps IsSound (run env r)
  unfolding run
  run-IsSound Request.health = handle-IsSound Request.health
  run-IsSound Request.ready = handle-IsSound Request.ready
  run-IsSound r = session_scope-IsSound (handle env r) (handle-IsSound r)
