-- ===== src/Api/Routes.antt =====
-- app/api/router.py: every route, and the session of a request.
use loglens_api.Effect.{Env, Action}
use loglens_api.Workers.{session_scope}
use loglens_api.Api.{Request, Body}
use loglens_api.Api.SystemRoutes.{
  health_route, ready_route, get_job_status_route, get_analytics_summary_route,
}
use loglens_api.Api.AuthRoutes.{
  register_route, login_route, login_for_access_token_route, refresh_route, logout_route,
  logout_all_route, me_route,
}
use loglens_api.Api.LogRoutes.{
  create_log_route, create_bulk_logs_route, list_logs_route, get_log_route, delete_log_route,
}
use loglens_api.Api.GroupRoutes.{
  list_error_groups_route, get_error_group_route, update_error_group_status_route,
  update_error_group_assignment_route, analyze_error_group_route,
  get_latest_error_group_analysis_route, list_error_group_analyses_route,
}
use loglens_api.Api.UserRoutes.{list_users_route, update_user_role_route, update_user_status_route}

module _ (env : Env) where
  unfoldable pub handle : Request → Action env Body
  handle Request.health = health_route env
  handle Request.ready = ready_route env
  handle (Request.get_job_status bearer job_id) = get_job_status_route env bearer job_id
  handle (Request.get_analytics_summary bearer) = get_analytics_summary_route env bearer
  handle (Request.register email password) = register_route env email password
  handle (Request.login host payload) = login_route env host payload
  handle (Request.login_for_access_token host username password) =
      login_for_access_token_route env host username password
  handle (Request.refresh refresh_token) = refresh_route env refresh_token
  handle (Request.logout refresh_token) = logout_route env refresh_token
  handle (Request.logout_all bearer) = logout_all_route env bearer
  handle (Request.me bearer) = me_route env bearer
  handle (Request.create_log bearer payload) = create_log_route env bearer payload
  handle (Request.create_bulk_logs bearer payload) = create_bulk_logs_route env bearer payload
  handle (Request.list_logs bearer q) = list_logs_route env bearer q
  handle (Request.get_log bearer log_id) = get_log_route env bearer log_id
  handle (Request.delete_log bearer log_id) = delete_log_route env bearer log_id
  handle (Request.list_error_groups bearer q) = list_error_groups_route env bearer q
  handle (Request.get_error_group bearer group_id) = get_error_group_route env bearer group_id
  handle (Request.update_error_group_status bearer group_id status) =
      update_error_group_status_route env bearer group_id status
  handle (Request.update_error_group_assignment bearer group_id assigned_to) =
      update_error_group_assignment_route env bearer group_id assigned_to
  handle (Request.analyze_error_group bearer group_id) =
      analyze_error_group_route env bearer group_id
  handle (Request.get_latest_error_group_analysis bearer group_id) =
      get_latest_error_group_analysis_route env bearer group_id
  handle (Request.list_error_group_analyses bearer group_id) =
      list_error_group_analyses_route env bearer group_id
  handle (Request.list_users bearer) = list_users_route env bearer
  handle (Request.update_user_role bearer user_id role) =
      update_user_role_route env bearer user_id role
  handle (Request.update_user_status bearer user_id is_active) =
      update_user_status_route env bearer user_id is_active

  -- The session of a request is closed behind it; the two system routes have none.
  unfoldable pub run : Request → Action env Body
  run Request.health = handle Request.health
  run Request.ready = handle Request.ready
  run request = session_scope (handle request)
