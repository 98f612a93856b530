-- ===== src/System/Reads.antt =====
-- The look-ups of the repositories, and what is read from other packages, change no table.
use loglens_api.Base.{ℕ, Option, none, some, [], ◌∷◌}
use loglens_api.Text.{Text}
use loglens_api.Text.Decimal.{ℤ}
use loglens_api.Effect.{
  Env, Reply, reply, redis_error, Raw, Verdict, verified, mismatch, invalid_hash,
}
use loglens_api.Effect.Keeps.{Keeps}
use loglens_api.Repositories.Users as user_repo
use loglens_api.Repositories.RefreshTokens as token_repo
use loglens_api.Repositories.ErrorGroups as group_repo
use loglens_api.Repositories.Logs as log_repo
use loglens_api.Repositories.Jobs as job_repo
use loglens_api.Repositories.Analyses as analysis_repo
use loglens_api.RateLimit.{Limiter, count_allows, start_window, is_allowed, add_failure, clear}
use loglens_api.Security.{
  hash_password, verdict_result, verify_password, create_access_token, or_uuid,
  create_refresh_token, decode_access_token, decode_refresh_token,
}
use loglens_api.System.Sound.{IsSound}
use loglens_api.System.Steps.{step_rules, query-IsSound}

module _ {env : Env} where
  pub user_by_id : (z : ℤ) → Keeps IsSound (user_repo.get_by_id {env = env} z)
  unfolding user_repo.get_by_id
  user_by_id z = query-IsSound _

  pub user_by_email : (e : Text) → Keeps IsSound (user_repo.get_by_email {env = env} e)
  unfolding user_repo.get_by_email
  user_by_email e = query-IsSound _

  pub all_users : Keeps IsSound (user_repo.list_users {env = env})
  unfolding user_repo.list_users
  all_users = query-IsSound _

  pub token_by_hash : (h : Text) → Keeps IsSound (token_repo.get_by_jti_hash {env = env} h)
  unfolding token_repo.get_by_jti_hash
  token_by_hash h = query-IsSound _

  pub group_by_id : (z : ℤ) → Keeps IsSound (group_repo.get_by_id {env = env} z)
  unfolding group_repo.get_by_id
  group_by_id z = query-IsSound _

  pub log_by_id : (z : ℤ) → Keeps IsSound (log_repo.get_by_id {env = env} z)
  unfolding log_repo.get_by_id
  log_by_id z = query-IsSound _

  pub job_by_id : (i : Text) → Keeps IsSound (job_repo.get_by_id {env = env} i)
  unfolding job_repo.get_by_id
  job_by_id i = query-IsSound _

  pub latest_analysis : (z : ℤ) → Keeps IsSound (analysis_repo.get_latest_for_group {env = env} z)
  unfolding analysis_repo.get_latest_for_group
  latest_analysis z = query-IsSound _

  pub group_analyses :
      (z : ℤ) (n : ℕ) → Keeps IsSound (analysis_repo.list_for_group {env = env} z n)
  unfolding analysis_repo.list_for_group
  group_analyses z n = query-IsSound _

pub ruleset read_rules = (
  step_rules, user_by_id, user_by_email, all_users, token_by_hash, group_by_id, log_by_id,
  job_by_id, latest_analysis, group_analyses,
)

module _ (env : Env) where
  count_allows-IsSound :
      (l : Limiter) (count : Reply (Option Raw)) → Keeps IsSound (count_allows env l count)
  count_allows-IsSound l redis_error = search step_rules
  count_allows-IsSound l (reply none) = search step_rules
  count_allows-IsSound l (reply (some raw)) = search step_rules

  pub is_allowed-IsSound : (l : Limiter) (key : Text) → Keeps IsSound (is_allowed env l key)
  unfolding is_allowed
  is_allowed-IsSound l key = search (step_rules, count_allows-IsSound)

  start_window-IsSound :
      (l : Limiter) (key : Text) (count : Reply ℕ) → Keeps IsSound (start_window env l key count)
  start_window-IsSound l key redis_error = search step_rules
  start_window-IsSound l key (reply count) = search step_rules

  pub add_failure-IsSound : (l : Limiter) (key : Text) → Keeps IsSound (add_failure env l key)
  unfolding add_failure
  add_failure-IsSound l key = search (step_rules, start_window-IsSound)

  pub clear-IsSound : (l : Limiter) (key : Text) → Keeps IsSound (clear env l key)
  unfolding clear
  clear-IsSound l key = search step_rules

  pub hash_password-IsSound : (password : Text) → Keeps IsSound (hash_password env password)
  unfolding hash_password
  hash_password-IsSound password = search step_rules

  verdict_result-IsSound : (v : Verdict) → Keeps IsSound (verdict_result env v)
  verdict_result-IsSound verified = search step_rules
  verdict_result-IsSound mismatch = search step_rules
  verdict_result-IsSound invalid_hash = search step_rules

  pub verify_password-IsSound :
      (password hash : Text) → Keeps IsSound (verify_password env password hash)
  unfolding verify_password
  verify_password-IsSound password hash = verdict_result-IsSound _

  pub create_access_token-IsSound :
      (subject : Text) → Keeps IsSound (create_access_token env subject)
  unfolding create_access_token
  create_access_token-IsSound subject = search step_rules

  or_uuid-IsSound : (given : Option Text) → Keeps IsSound (or_uuid env given)
  or_uuid-IsSound none = search step_rules
  or_uuid-IsSound (some []) = search step_rules
  or_uuid-IsSound (some (c ∷ s)) = search step_rules

  pub create_refresh_token-IsSound :
      (subject : Text) (family : Option Text)
      → Keeps IsSound (create_refresh_token env subject family)
  unfolding create_refresh_token
  create_refresh_token-IsSound subject family = search (step_rules, or_uuid-IsSound)

  pub decode_access_token-IsSound : (token : Text) → Keeps IsSound (decode_access_token env token)
  unfolding decode_access_token
  decode_access_token-IsSound token = search step_rules

  pub decode_refresh_token-IsSound : (token : Text) → Keeps IsSound (decode_refresh_token env token)
  unfolding decode_refresh_token
  decode_refresh_token-IsSound token = search step_rules

pub ruleset security_rules = (
  is_allowed-IsSound, add_failure-IsSound, clear-IsSound, hash_password-IsSound,
  verify_password-IsSound, create_access_token-IsSound, create_refresh_token-IsSound,
  decode_access_token-IsSound, decode_refresh_token-IsSound,
)
