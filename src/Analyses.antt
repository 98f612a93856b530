-- ===== src/Analyses.antt =====
-- app/services/analysis.py: requests for the analysis of an error group, and their results.
pub mod Requests
use loglens_api.Base.{ℕ, Option, none, some, List, ◌++◌, map}
use loglens_api.Text.{Text, codes}
use loglens_api.Text.Decimal.{ℤ, str}
use loglens_api.Models.{Instant, ErrorAnalysis, ErrorGroup, User}
use loglens_api.Models.Enums.{ErrorAnalysisStatus, AnalysisPriority, BackgroundJobType}
use loglens_api.Errors.{not_found}
use loglens_api.Effect.{Env, Action, ok, err, pure, or_raise, ◌>>=◌, ◌>>◌}
use loglens_api.Repositories.Analyses as analysis_repo
use loglens_api.Repositories.ErrorGroups as group_repo
use loglens_api.Repositories.Jobs.{JobRequest}
use loglens_api.Jobs.{create_job}

-- app/schemas/analysis.py
pub record ErrorAnalysisResponse : Type 0 where
  pub id : ℕ
  pub error_group_id : ℕ
  pub status : ErrorAnalysisStatus
  pub summary : Option Text
  pub likely_root_cause : Option Text
  pub suggested_fix : Option Text
  pub confidence : Option ℕ
  pub affected_component : Option Text
  pub recommended_priority : Option AnalysisPriority
  pub reasoning_summary : Option Text
  pub provider : Option Text
  pub model : Option Text
  pub latency_ms : Option ℕ
  pub created_by : Option ℕ
  pub created_at : Instant
  pub updated_at : Instant

-- `ErrorAnalysisResponse.model_validate`
abbrev pub to_response : ErrorAnalysis → ErrorAnalysisResponse
to_response a = record {
  id = a.id;
  error_group_id = a.error_group_id;
  status = a.status;
  summary = a.summary;
  likely_root_cause = a.likely_root_cause;
  suggested_fix = a.suggested_fix;
  confidence = a.confidence;
  affected_component = a.affected_component;
  recommended_priority = a.recommended_priority;
  reasoning_summary = a.reasoning_summary;
  provider = a.provider;
  model = a.model;
  latency_ms = a.latency_ms;
  created_by = a.created_by;
  created_at = a.created_at;
  updated_at = a.updated_at;
}

-- What the job of a group is created from; only a group that exists gets one, so its id is a number.
abbrev pub analysis_request : ℕ → ℕ → JobRequest
analysis_request group_id user_id = record {
  job_type = BackgroundJobType.error_group_analysis;
  payload = record {
    request_hash = none;
    logs = none;
    failures = none;
    group_id = some group_id;
    requested_by = some user_id;
  };
  total_items = 1;
  created_by = some user_id;
  idempotency_key = none;
  scope_key = some (codes "error-group:" ++ (str group_id ++ codes ":analysis"));
}

module _ (env : Env) where
  unfoldable pub create_analysis_job : ℤ → User → Action env Text
  create_analysis_job group_id current_user = do
    group ← group_repo.get_by_id group_id
    group ← or_raise group (not_found (codes "ErrorGroup"))
    job ← create_job env (analysis_request group.id current_user.id)
    pure job.id

  unfoldable pub get_latest_analysis : ℤ → Action env ErrorAnalysisResponse
  get_latest_analysis group_id = do
    analysis ← analysis_repo.get_latest_for_group group_id
    analysis ← or_raise analysis (not_found (codes "ErrorAnalysis"))
    pure (to_response analysis)

  unfoldable pub list_analyses : ℤ → Action env (List ErrorAnalysisResponse)
  list_analyses group_id = do
    analyses ← analysis_repo.list_for_group group_id 50
    pure (map to_response analyses)
