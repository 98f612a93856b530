-- ===== src/Logs.antt =====
-- app/services/logs.py: storing a log, grouping the errors among them, and the requests over both.
pub mod Upserts
pub mod Grouping
pub mod Counting
pub mod Deleting
pub mod Tallies
use loglens_api.Base.{
  ℕ, ◌-◌, ◌*◌, ◌++◌, Bool, true, false, Option, none, some, List, [], ◌∷◌, length, take,
  if◌then◌else◌,
}
use loglens_api.Text.{Text, codes}
use loglens_api.Text.Decimal.{ℤ}
use loglens_api.Table.{select_where, order_by}
use loglens_api.Clock.{as_utc_aware}
use loglens_api.Models.{Instant, Log, ErrorGroup, User, LogIngestRequest, BackgroundJob}
use loglens_api.Models.Enums.{
  LogEnvironment, LogLevel, ErrorGroupSeverity, BackgroundJobType, level_ordinal,
}
use loglens_api.Errors.{overflow_error, not_found}
use loglens_api.Effect.{
  Env, World, Action, ok, err, pure, raise, or_raise, ◌>>=◌, ◌>>◌, commit, query, redis_call, Reply,
}
use loglens_api.Fingerprint.{FingerprintInput, normalize_message, generate_fingerprint}
use loglens_api.Pagination.{SortOrder, in_order, PaginationMeta, total_pages_of, page_of}
use loglens_api.Repositories.ErrorGroups as error_group_repo
use loglens_api.Repositories.ErrorGroups.{GroupValues}
use loglens_api.Repositories.Logs as log_repo
use loglens_api.Repositories.Logs.{LogValues, LogFilter, build_query}
use loglens_api.Repositories.Jobs.{JobRequest}
use loglens_api.Jobs.{JobAcceptedResponse, create_job, to_accepted_response}

abbrev pub severity_for_level : LogLevel → ErrorGroupSeverity
severity_for_level LogLevel.warning = ErrorGroupSeverity.medium
severity_for_level LogLevel.error = ErrorGroupSeverity.high
severity_for_level _ = ErrorGroupSeverity.critical

-- The level is one of `_ERROR_LEVELS`.
abbrev pub should_group : LogLevel → Bool
should_group LogLevel.warning = true
should_group LogLevel.error = true
should_group LogLevel.critical = true
should_group _ = false

-- An empty exception type counts as none.
abbrev pub group_title : LogIngestRequest → Text → Text
group_title payload normalized_message = elim payload.exception_type [
  | none ↦ take 512 normalized_message
  | some [] ↦ take 512 normalized_message
  | some (c ∷ s) ↦ take 512 (c ∷ s)
]

-- `BulkLogIngestRequest`, whose validation asks for at least one log.
pub record BulkLogIngestRequest : Type 0 where
  pub idempotency_key : Option Text
  pub logs : List LogIngestRequest

pub data LogSortBy : Type 0 where
  timestamp created_at log_level : LogSortBy

pub record LogListQuery : Type 0 where
  pub filter : LogFilter
  pub sort_by : LogSortBy
  pub sort_order : SortOrder
  pub page : ℕ
  pub page_size : ℕ

pub record LogListResponse : Type 0 where
  pub items : List Log
  pub pagination : PaginationMeta

-- `column_map`
abbrev pub sort_column : LogSortBy → Log → ℕ
sort_column LogSortBy.timestamp l = l.timestamp
sort_column LogSortBy.created_at l = l.created_at
sort_column LogSortBy.log_level l = level_ordinal l.log_level

unfoldable pub sort_statement : LogSortBy → SortOrder → List Log → List Log
sort_statement sort_by sort_order =
    order_by (λ a b. in_order sort_order (sort_column sort_by a) a.id (sort_column sort_by b) b.id)

module _ (env : Env) where
  open env use {settings, sha256, json_dumps_logs, json_dumps_job, redis_set}

  abbrev pub fingerprint_of : LogIngestRequest → Text
  fingerprint_of payload = generate_fingerprint env (record {
    service_name = payload.service_name;
    normalized_message = normalize_message env payload.message;
    exception_type = payload.exception_type;
    stack_trace = payload.stack_trace;
  })

  abbrev pub group_values : LogIngestRequest → Instant → GroupValues
  group_values payload at = record {
    fingerprint = fingerprint_of payload;
    title = group_title payload (normalize_message env payload.message);
    service_name = payload.service_name;
    environment = payload.environment;
    exception_type = payload.exception_type;
    first_seen = at;
    last_seen = at;
    severity = severity_for_level payload.log_level;
  }

  abbrev pub log_values : LogIngestRequest → Instant → Option Text → Option ℕ → LogValues
  log_values payload at fingerprint error_group_id = record {
    service_name = payload.service_name;
    environment = payload.environment;
    log_level = payload.log_level;
    message = payload.message;
    normalized_message = normalize_message env payload.message;
    exception_type = payload.exception_type;
    stack_trace = payload.stack_trace;
    metadata = payload.metadata;
    fingerprint = fingerprint;
    error_group_id = error_group_id;
    timestamp = at;
  }

  -- What is done for a level that is grouped, and for one that is not.
  abbrev pub persist_at : Bool → LogIngestRequest → Instant → Action env Log
  persist_at false payload at = log_repo.create_log (log_values payload at none none)
  persist_at true payload at = do
    error_group ← error_group_repo.upsert_group (group_values payload at)
    log_repo.create_log
        (log_values payload at (some (fingerprint_of payload)) (some error_group.id))

  unfoldable pub persist_log : LogIngestRequest → Action env Log
  persist_log payload = do
    at ← or_raise (as_utc_aware payload.timestamp) overflow_error
    persist_at (should_group payload.log_level) payload at

  unfoldable pub ingest_log : LogIngestRequest → Action env Log
  ingest_log payload = do log ← persist_log payload; commit; pure log

  abbrev pub remember_job : Option Text → Text → Text → Action env (Unit {0})
  remember_job none job_id request_hash = pure tt
  remember_job (some key) job_id request_hash = do
    _ ← redis_call (
        redis_set (codes "ingest:bulk:" ++ key) (json_dumps_job job_id request_hash)
          settings.bulk_idempotency_ttl_seconds)
    pure tt

  abbrev pub request_hash : BulkLogIngestRequest → Text
  request_hash payload = sha256 (json_dumps_logs payload.logs)

  -- What the job of a bulk request is created from.
  abbrev pub bulk_job : BulkLogIngestRequest → User → JobRequest
  bulk_job payload current_user = record {
    job_type = BackgroundJobType.bulk_log_ingest;
    payload = record {
      request_hash = some (request_hash payload);
      logs = some payload.logs;
      failures = none;
      group_id = none;
      requested_by = none;
    };
    total_items = length payload.logs;
    created_by = some current_user.id;
    idempotency_key = payload.idempotency_key;
    scope_key = none;
  }

  -- Behind the creation of the job.
  abbrev pub accept_job : BulkLogIngestRequest → BackgroundJob → Action env JobAcceptedResponse
  accept_job payload job = do
    remember_job payload.idempotency_key job.id (request_hash payload)
    pure (to_accepted_response job)

  unfoldable pub enqueue_bulk_ingestion_job :
      BulkLogIngestRequest → User → Action env JobAcceptedResponse
  enqueue_bulk_ingestion_job payload current_user = do
    job ← create_job env (bulk_job payload current_user)
    accept_job payload job

  unfoldable pub get_log : ℤ → Action env Log
  get_log log_id = do log ← log_repo.get_by_id log_id; or_raise log (not_found (codes "Log"))

  unfoldable pub delete_log : ℤ → Action env (Unit {0})
  delete_log log_id = do log ← get_log log_id; log_repo.delete_log log; commit

  unfoldable pub list_logs : LogListQuery → Action env LogListResponse
  list_logs q = do
    rows ← query (λ d. select_where (build_query env d.error_groups q.filter) d.logs)
    let sorted = sort_statement q.sort_by q.sort_order rows
    pure (record {
      items = page_of q.page q.page_size sorted;
      pagination = record {
        page = q.page;
        page_size = q.page_size;
        total_items = length rows;
        total_pages = total_pages_of (length rows) q.page_size;
      };
    })
