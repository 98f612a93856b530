-- ===== src/System/Services.antt =====
-- The other services keep the tables sound.
use loglens_api.Base.{Bool, Option, none, some, [], ◌∷◌, ltb}
use loglens_api.Text.{Text}
use loglens_api.Text.Decimal.{ℤ}
use loglens_api.Models.{User, LogIngestRequest}
use loglens_api.Models.Enums.{UserRole, ErrorGroupStatus}
use loglens_api.Errors.{overflow_error}
use loglens_api.Effect.{
  Env, Reply, reply, redis_error, Raw, pure, query, utc_now, raise_if, redis_call,
}
use loglens_api.Effect.Keeps.{Keeps, Keeps-bind, Keeps-pure}
use loglens_api.Users.{update_user_role, update_user_status, list_users}
use loglens_api.ErrorGroups as group_service
use loglens_api.ErrorGroups.{
  get_error_group, list_error_groups, update_assignment, ErrorGroupListQuery, find_assignee,
}
use loglens_api.Logs.{ingest_log, LogListQuery, list_logs, get_log}
use loglens_api.Logs as log_service
use loglens_api.Jobs.{get_job, get_job_status}
use loglens_api.Analyses.{get_latest_analysis, list_analyses}
use loglens_api.Analytics.{
  recalculate_summary_analytics, cache_summary, cache_key, day_before, summarize, empty_summary,
  read_summary, read_cached, get_summary, redis_done,
}
use loglens_api.Workers.{session_scope}
use loglens_api.System.Sound.{IsSound}
use loglens_api.System.Accounts.{update_role-IsSound, update_status-IsSound}
use loglens_api.System.Changes as log_steps
use loglens_api.System.Logs.{persist_log-IsSound}
use loglens_api.System.Changes.{update_assignment-IsSound, delete_log-IsSound}
use loglens_api.System.Steps.{
  step_rules, utc_now-IsSound, raise_if-IsSound, redis_call-IsSound, session_scope-IsSound,
  query-IsSound,
}
use loglens_api.System.Reads.{read_rules}

module _ (env : Env) where
  pub update_user_role-IsSound :
      (z : ℤ) (role : UserRole) → Keeps IsSound (update_user_role env z role)
  unfolding update_user_role
  update_user_role-IsSound z role = search (read_rules, update_role-IsSound)

  pub update_user_status-IsSound :
      (z : ℤ) (active : Bool) → Keeps IsSound (update_user_status env z active)
  unfolding update_user_status
  update_user_status-IsSound z active = search (read_rules, update_status-IsSound)

  pub list_users-IsSound : Keeps IsSound (list_users env)
  unfolding list_users
  list_users-IsSound = search read_rules

  pub get_error_group-IsSound : (z : ℤ) → Keeps IsSound (get_error_group env z)
  unfolding get_error_group
  get_error_group-IsSound z = search read_rules

  pub list_error_groups-IsSound :
      (q : ErrorGroupListQuery) → Keeps IsSound (list_error_groups env q)
  unfolding list_error_groups
  list_error_groups-IsSound q = search read_rules

  pub update_group_status-IsSound :
      (z : ℤ) (status : ErrorGroupStatus) → Keeps IsSound (group_service.update_status env z status)
  unfolding group_service.update_status
  update_group_status-IsSound z status =
      search (read_rules, get_error_group-IsSound, log_steps.update_status-IsSound)

  find_assignee-IsSound : (z : Option ℤ) → Keeps IsSound (find_assignee env z)
  find_assignee-IsSound none = search read_rules
  find_assignee-IsSound (some z) = search read_rules

  pub update_group_assignment-IsSound :
      (z : ℤ) (assignee : Option ℤ) (user : User)
      → Keeps IsSound (update_assignment env z assignee user)
  unfolding update_assignment
  update_group_assignment-IsSound z assignee user =
      search (read_rules, get_error_group-IsSound, find_assignee-IsSound, update_assignment-IsSound)
        depth 8

  pub ingest_log-IsSound : (p : LogIngestRequest) → Keeps IsSound (ingest_log env p)
  unfolding ingest_log
  ingest_log-IsSound p = search (read_rules, persist_log-IsSound)

  pub get_log-IsSound : (z : ℤ) → Keeps IsSound (get_log env z)
  unfolding get_log
  get_log-IsSound z = search read_rules

  pub delete_log_service-IsSound : (z : ℤ) → Keeps IsSound (log_service.delete_log env z)
  unfolding log_service.delete_log
  delete_log_service-IsSound z = search (read_rules, get_log-IsSound, delete_log-IsSound)

  pub list_logs-IsSound : (q : LogListQuery) → Keeps IsSound (list_logs env q)
  unfolding list_logs
  list_logs-IsSound q = search read_rules

  pub get_job_status-IsSound : (i : Text) → Keeps IsSound (get_job_status env i)
  unfolding get_job_status get_job
  get_job_status-IsSound i = search read_rules

  pub get_latest_analysis-IsSound : (z : ℤ) → Keeps IsSound (get_latest_analysis env z)
  unfolding get_latest_analysis
  get_latest_analysis-IsSound z = search read_rules

  pub list_analyses-IsSound : (z : ℤ) → Keeps IsSound (list_analyses env z)
  unfolding list_analyses
  list_analyses-IsSound z = search read_rules

  redis_done-IsSound : {A : Type 0} (r : Reply A) → Keeps IsSound (redis_done {env = env} r)
  redis_done-IsSound (reply a) = search step_rules
  redis_done-IsSound redis_error = search step_rules

  read_tables-IsSound : Keeps IsSound (session_scope {env = env} (query (λ d. d)))
  read_tables-IsSound = session_scope-IsSound (query (λ d. d)) (query-IsSound (λ d. d))

  pub recalculate-IsSound : Keeps IsSound (recalculate_summary_analytics env)
  unfolding recalculate_summary_analytics
  recalculate-IsSound = Keeps-bind utc_now _ utc_now-IsSound λ now.
      Keeps-bind (raise_if (ltb now 86400000000) overflow_error) _
        (raise_if-IsSound (ltb now 86400000000) overflow_error)
        λ _.
          Keeps-bind (session_scope (query (λ d. d))) (cache_summary env now) read_tables-IsSound
            λ tables. Keeps-bind utc_now _ utc_now-IsSound λ generated_at.
              Keeps-bind
                (redis_call (
                  env.redis_set cache_key
                    (env.json_dumps_summary (summarize (day_before now) generated_at tables))
                    env.settings.analytics_cache_ttl_seconds))
                _ (redis_call-IsSound _)
                λ answer.
                  Keeps-bind (redis_done answer) _ (redis_done-IsSound answer)
                    λ _. Keeps-pure (summarize (day_before now) generated_at tables)

  empty_summary-IsSound : Keeps IsSound (empty_summary env)
  unfolding empty_summary
  empty_summary-IsSound = search step_rules

  read_summary-IsSound : (t : Text) → Keeps IsSound (read_summary env t)
  read_summary-IsSound [] = empty_summary-IsSound
  read_summary-IsSound (c ∷ s) =
      elim (env.load_summary (c ∷ s))
        as (λ o.
          Keeps IsSound (elim o [ none ↦ empty_summary env | some summary ↦ pure summary ])) [
            | none ↦ empty_summary-IsSound
            | some summary ↦ search step_rules
          ]

  read_cached-IsSound : (r : Reply (Option Raw)) → Keeps IsSound (read_cached env r)
  read_cached-IsSound redis_error = empty_summary-IsSound
  read_cached-IsSound (reply none) = empty_summary-IsSound
  read_cached-IsSound (reply (some raw)) = read_summary-IsSound _

  pub get_summary-IsSound : Keeps IsSound (get_summary env)
  unfolding get_summary
  get_summary-IsSound = search (step_rules, read_cached-IsSound)
