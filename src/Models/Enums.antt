-- ===== src/Models/Enums.antt =====
-- The enumerations of app/models/enums.py and the role of app/models/user.py. A test `==` between
-- two members compares their ordinals.
use loglens_api.Base.{ℕ, Bool, true, ◌==◌, ◌≡◌, arith}

pub data UserRole : Type 0 where
  admin developer : UserRole

pub data LogEnvironment : Type 0 where
  development staging production : LogEnvironment

pub data LogLevel : Type 0 where
  debug info warning error critical : LogLevel

pub data ErrorGroupStatus : Type 0 where
  unresolved investigating resolved ignored : ErrorGroupStatus

pub data ErrorGroupSeverity : Type 0 where
  low medium high critical : ErrorGroupSeverity

pub data BackgroundJobStatus : Type 0 where
  pending running completed failed partially_completed : BackgroundJobStatus

pub data BackgroundJobType : Type 0 where
  bulk_log_ingest error_group_analysis log_cleanup analytics_recalculation : BackgroundJobType

pub data ErrorAnalysisStatus : Type 0 where
  pending completed failed : ErrorAnalysisStatus

pub data AnalysisPriority : Type 0 where
  low medium high critical : AnalysisPriority

abbrev environment_ordinal : LogEnvironment → ℕ
environment_ordinal LogEnvironment.development = 0
environment_ordinal LogEnvironment.staging = 1
environment_ordinal LogEnvironment.production = 2

abbrev pub environment_eq : LogEnvironment → LogEnvironment → Bool
environment_eq a b = environment_ordinal a == environment_ordinal b

abbrev pub level_ordinal : LogLevel → ℕ
level_ordinal LogLevel.debug = 0
level_ordinal LogLevel.info = 1
level_ordinal LogLevel.warning = 2
level_ordinal LogLevel.error = 3
level_ordinal LogLevel.critical = 4

abbrev pub level_eq : LogLevel → LogLevel → Bool
level_eq a b = level_ordinal a == level_ordinal b

abbrev status_ordinal : ErrorGroupStatus → ℕ
status_ordinal ErrorGroupStatus.unresolved = 0
status_ordinal ErrorGroupStatus.investigating = 1
status_ordinal ErrorGroupStatus.resolved = 2
status_ordinal ErrorGroupStatus.ignored = 3

abbrev pub status_eq : ErrorGroupStatus → ErrorGroupStatus → Bool
status_eq a b = status_ordinal a == status_ordinal b

abbrev severity_ordinal : ErrorGroupSeverity → ℕ
severity_ordinal ErrorGroupSeverity.low = 0
severity_ordinal ErrorGroupSeverity.medium = 1
severity_ordinal ErrorGroupSeverity.high = 2
severity_ordinal ErrorGroupSeverity.critical = 3

abbrev pub severity_eq : ErrorGroupSeverity → ErrorGroupSeverity → Bool
severity_eq a b = severity_ordinal a == severity_ordinal b

abbrev job_type_ordinal : BackgroundJobType → ℕ
job_type_ordinal BackgroundJobType.bulk_log_ingest = 0
job_type_ordinal BackgroundJobType.error_group_analysis = 1
job_type_ordinal BackgroundJobType.log_cleanup = 2
job_type_ordinal BackgroundJobType.analytics_recalculation = 3

abbrev pub job_type_eq : BackgroundJobType → BackgroundJobType → Bool
job_type_eq a b = job_type_ordinal a == job_type_ordinal b

pub environment_eq→eq : (a b : LogEnvironment) → environment_eq a b ≡ true → a ≡ b
environment_eq→eq a b h = ground arith

pub environment_eq_refl : (a : LogEnvironment) → environment_eq a a ≡ true
environment_eq_refl a = ground arith

pub job_type_eq→eq : (a b : BackgroundJobType) → job_type_eq a b ≡ true → a ≡ b
job_type_eq→eq a b h = ground arith

pub job_type_eq_refl : (a : BackgroundJobType) → job_type_eq a a ≡ true
job_type_eq_refl a = ground arith
