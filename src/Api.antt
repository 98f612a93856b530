-- ===== src/Api.antt =====
-- app/api/routes and app/schemas: what a client can ask for, and what it is answered. A request has
-- passed FastAPI's validation; `Option Text` is its bearer token.
pub mod Guards
pub mod SystemRoutes
pub mod AuthRoutes
pub mod LogRoutes
pub mod GroupRoutes
pub mod UserRoutes
pub mod Routes
pub mod Replies
pub mod Access
pub mod Tracing
use loglens_api.Base.{ℕ, Bool, Option, List}
use loglens_api.Text.{Text}
use loglens_api.Text.Decimal.{ℤ}
use loglens_api.Models.{Instant, User, Log, ErrorGroup, LogIngestRequest, AnalyticsSummary}
use loglens_api.Models.Enums.{UserRole, ErrorGroupStatus}
use loglens_api.Auth.{TokenResponse, LoginRequest}
use loglens_api.Jobs.{JobAcceptedResponse, JobStatusResponse}
use loglens_api.Logs.{BulkLogIngestRequest, LogListQuery, LogListResponse}
use loglens_api.ErrorGroups.{ErrorGroupListQuery, ErrorGroupListResponse}
use loglens_api.Analyses.{ErrorAnalysisResponse}

-- A route of the API with what the client sends; `host` is that of the client, if it is known.
pub data Request : Type 0 where
  health ready : Request
  register : Text → Text → Request
  login : Option Text → LoginRequest → Request
  login_for_access_token : Option Text → Text → Text → Request
  refresh logout : Text → Request
  logout_all me : Option Text → Request
  create_log : Option Text → LogIngestRequest → Request
  create_bulk_logs : Option Text → BulkLogIngestRequest → Request
  list_logs : Option Text → LogListQuery → Request
  get_log delete_log : Option Text → ℤ → Request
  list_error_groups : Option Text → ErrorGroupListQuery → Request
  get_error_group : Option Text → ℤ → Request
  update_error_group_status : Option Text → ℤ → ErrorGroupStatus → Request
  update_error_group_assignment : Option Text → ℤ → Option ℤ → Request
  analyze_error_group : Option Text → ℤ → Request
  get_latest_error_group_analysis list_error_group_analyses : Option Text → ℤ → Request
  list_users : Option Text → Request
  update_user_role : Option Text → ℤ → UserRole → Request
  update_user_status : Option Text → ℤ → Bool → Request
  get_job_status : Option Text → Text → Request
  get_analytics_summary : Option Text → Request

-- app/schemas/users.py: a user without the hash of the password
pub record UserResponse : Type 0 where
  pub id : ℕ
  pub email : Text
  pub role : UserRole
  pub is_active : Bool
  pub created_at : Instant
  pub updated_at : Instant

-- app/schemas/auth.py
pub record OAuth2TokenResponse : Type 0 where
  pub access_token : Text
  pub token_type : Text
  pub expires_in : ℕ
  pub refresh_token : Text

pub record AuthenticatedUserResponse : Type 0 where
  pub id : ℕ
  pub email : Text
  pub role : UserRole
  pub is_active : Bool

-- The body of a successful answer. The schemas of a log and of a group have the columns of their tables.
pub data Body : Type 0 where
  health_ok ready_ok logged_out no_content : Body
  user_body : UserResponse → Body
  user_list : List UserResponse → Body
  login_body : TokenResponse → Body
  token_body : OAuth2TokenResponse → Body
  me_body : AuthenticatedUserResponse → Body
  log_body : Log → Body
  log_list : LogListResponse → Body
  accepted_body : JobAcceptedResponse → Body
  job_body : JobStatusResponse → Body
  group_body : ErrorGroup → Body
  group_list : ErrorGroupListResponse → Body
  analysis_body : ErrorAnalysisResponse → Body
  analysis_list : List ErrorAnalysisResponse → Body
  summary_body : AnalyticsSummary → Body

-- `UserResponse.model_validate` and the like
abbrev pub to_user_response : User → UserResponse
to_user_response u = record {
  id = u.id;
  email = u.email;
  role = u.role;
  is_active = u.is_active;
  created_at = u.created_at;
  updated_at = u.updated_at;
}

abbrev pub to_authenticated_user : User → AuthenticatedUserResponse
to_authenticated_user u = record {
  id = u.id;
  email = u.email;
  role = u.role;
  is_active = u.is_active;
}

abbrev pub to_oauth2_token : TokenResponse → OAuth2TokenResponse
to_oauth2_token token = record {
  access_token = token.access_token;
  token_type = token.token_type;
  expires_in = token.expires_in_seconds;
  refresh_token = token.refresh_token;
}
