-- ===== src/Models.antt =====
-- The tables of app/models: one record for each mapped class, a column for each field. A time with
-- zone is an instant, microseconds of UTC since year 1; a JSON column that the program only carries
-- is its text.
pub mod Enums
use loglens_api.Base.{ℕ, Bool, Option, List}
use loglens_api.Text.{Text}
use Enums.{
  UserRole, LogEnvironment, LogLevel, ErrorGroupStatus, ErrorGroupSeverity, BackgroundJobStatus,
  BackgroundJobType, ErrorAnalysisStatus, AnalysisPriority,
}

abbrev pub Instant : Type 0
Instant = ℕ

-- app/models/user.py
pub record User : Type 0 where
  pub id : ℕ
  pub email : Text
  pub password_hash : Text
  pub role : UserRole
  pub is_active : Bool
  pub created_at : Instant
  pub updated_at : Instant

-- A Python `datetime`: a naive one has no offset.
pub data Offset : Type 0 where
  east : ℕ → Offset
  west : ℕ → Offset

pub record Datetime : Type 0 where
  pub wall : ℕ
  pub tzinfo : Option Offset

-- app/models/refresh_token.py
pub record RefreshToken : Type 0 where
  pub id : ℕ
  pub user_id : ℕ
  pub jti_hash : Text
  pub family_id : Text
  pub replaced_by_jti_hash : Option Text
  pub created_at : Instant
  pub expires_at : Datetime
  pub revoked_at : Option Instant
  pub reuse_detected_at : Option Instant

-- app/models/error_group.py
pub record ErrorGroup : Type 0 where
  pub id : ℕ
  pub fingerprint : Text
  pub title : Text
  pub service_name : Text
  pub environment : LogEnvironment
  pub exception_type : Option Text
  pub first_seen : Instant
  pub last_seen : Instant
  pub occurrence_count : ℕ
  pub status : ErrorGroupStatus
  pub severity : ErrorGroupSeverity
  pub assigned_to : Option ℕ
  pub created_at : Instant
  pub updated_at : Instant

-- app/models/log.py
pub record Log : Type 0 where
  pub id : ℕ
  pub service_name : Text
  pub environment : LogEnvironment
  pub log_level : LogLevel
  pub message : Text
  pub normalized_message : Text
  pub exception_type : Option Text
  pub stack_trace : Option Text
  pub metadata : Text
  pub fingerprint : Option Text
  pub error_group_id : Option ℕ
  pub timestamp : Instant
  pub created_at : Instant

-- app/schemas/log.py: `LogIngestRequest` and `BulkLogItemFailure`
pub record LogIngestRequest : Type 0 where
  pub service_name : Text
  pub environment : LogEnvironment
  pub log_level : LogLevel
  pub message : Text
  pub exception_type : Option Text
  pub stack_trace : Option Text
  pub metadata : Text
  pub timestamp : Datetime

pub record BulkLogItemFailure : Type 0 where
  pub index : ℕ
  pub error : Text

-- The JSON object of a job, by the keys that the program reads or writes; `none` is a missing key.
pub record Payload : Type 0 where
  pub request_hash : Option Text
  pub logs : Option (List LogIngestRequest)
  pub failures : Option (List BulkLogItemFailure)
  pub group_id : Option ℕ
  pub requested_by : Option ℕ

-- app/models/background_job.py
pub record BackgroundJob : Type 0 where
  pub id : Text
  pub job_type : BackgroundJobType
  pub status : BackgroundJobStatus
  pub payload : Payload
  pub total_items : ℕ
  pub processed_items : ℕ
  pub success_count : ℕ
  pub failure_count : ℕ
  pub idempotency_key : Option Text
  pub scope_key : Option Text
  pub celery_task_id : Option Text
  pub error_summary : Option Text
  pub created_by : Option ℕ
  pub started_at : Option Instant
  pub completed_at : Option Instant
  pub created_at : Instant
  pub updated_at : Instant

-- app/models/error_analysis.py; `confidence` is NUMERIC(4, 3), in thousandths
pub record ErrorAnalysis : Type 0 where
  pub id : ℕ
  pub error_group_id : ℕ
  pub status : ErrorAnalysisStatus
  pub summary : Option Text
  pub likely_root_cause : Option Text
  pub suggested_fix : Option Text
  pub confidence : Option ℕ
  pub affected_component : Option Text
  pub recommended_priority : Option AnalysisPriority
  pub reasoning_summary : Option Text
  pub provider : Option Text
  pub model : Option Text
  pub latency_ms : Option ℕ
  pub raw_response_metadata : Option (Instant × ℕ)
  pub created_by : Option ℕ
  pub completed_at : Option Instant
  pub created_at : Instant
  pub updated_at : Instant

-- app/schemas/analytics.py; a dict is the list of its items, in which a member of an enumeration
-- stands for its value, and the average is a quotient
pub record ErrorGroupSummary : Type 0 where
  pub group_id : ℕ
  pub title : Text
  pub occurrence_count : ℕ

pub record AnalyticsSummary : Type 0 where
  pub generated_at : Instant
  pub total_logs : ℕ
  pub logs_last_24h : ℕ
  pub logs_by_service : List (Text × ℕ)
  pub logs_by_environment : List (LogEnvironment × ℕ)
  pub logs_by_severity : List (LogLevel × ℕ)
  pub unresolved_error_count : ℕ
  pub most_frequent_error_groups : List ErrorGroupSummary
  pub avg_occurrences_per_group : ℕ × ℕ

-- app/schemas/analysis.py: what a provider answers, once it is validated; `confidence` as the column
-- keeps it
pub record AiAnalysisResult : Type 0 where
  pub summary : Text
  pub likely_root_cause : Text
  pub suggested_fix : Text
  pub confidence : ℕ
  pub affected_component : Text
  pub recommended_priority : AnalysisPriority
  pub reasoning_summary : Text
  pub generated_at : Instant
  pub provider : Text
  pub model : Text
  pub latency_ms : ℕ
