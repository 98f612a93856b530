-- ===== src/Tests/Ingest.antt =====
-- Jobs, logs and groups, the bulk ingestion job, and pages.
use loglens_api.Base.{ℕ, ◌+◌, ◌≡◌, ◌≢◌, refl, [], ◌∷◌, List, some, none, arith, length, ap}
use loglens_api.Text.{codes, text_eq, is_space, strip, lower, lstrip, rstrip}
use loglens_api.Text.Decimal.{str}
use loglens_api.Table.{find_first, select_where, update_where, insert_row}
use loglens_api.Clock.{aware, as_utc_aware}
use loglens_api.Models.{BackgroundJob, Log, LogIngestRequest, east}
use loglens_api.Models.Enums.{LogEnvironment, LogLevel, BackgroundJobType}
use loglens_api.Effect.{ok, World}
use loglens_api.Fingerprint.{
  collapse_from, splitlines_from, splitlines, join, normalize_common, normalize_message,
  normalize_lines, normalize_stack_trace, generate_fingerprint,
}
use loglens_api.Repositories.ErrorGroups.{upsert_group}
use loglens_api.Repositories.Logs.{create_log}
use loglens_api.Repositories.Jobs as job_repo
use loglens_api.Repositories.Jobs.{JobRequest, has_job_id}
use loglens_api.Jobs.{create_job, create_new_job, increment_background_jobs_created}
use loglens_api.Jobs.Create.{created, create_job-new, create_job-repeated}
use loglens_api.Table.Counts.{how_many}
use loglens_api.Logs.Tallies.{Key, tally, is_occurrence, ingest_each, ingest_each-tally}
use loglens_api.Logs.{fingerprint_of, persist_log}
use loglens_api.Logs.Grouping.{grouped_log, persist_log-together}
use loglens_api.Logs.Counting.{OccurrencesCoverLogs, persist_log-OccurrencesCoverLogs}
use loglens_api.Workers.Bulk.{done, process_bulk_ingestion_job}
use loglens_api.Workers.Bulk.{already}
use loglens_api.Workers.BulkOnce.{process_bulk-once}
use loglens_api.Workers.BulkEnds.{status_of, process_bulk-completes}
use loglens_api.Pagination.{total_pages_of, page_of, first_pages, first_pages-all}
use loglens_api.Tests.Sample.{env, world_of, db}

program : Unit {0}
unfolding text_eq strip lower lstrip rstrip is_space find_first select_where update_where insert_row
    str as_utc_aware collapse_from splitlines_from splitlines join normalize_common
    normalize_message normalize_lines normalize_stack_trace generate_fingerprint upsert_group
    create_log create_job create_new_job increment_background_jobs_created job_repo.create_job
    job_repo.get_by_job_type_and_idempotency_key job_repo.get_active_by_scope persist_log
    total_pages_of page_of
program = tt

abbrev home : World env
home = world_of (db [])

abbrev pub crash : LogIngestRequest
crash = record {
  service_name = codes "billing";
  environment = LogEnvironment.production;
  log_level = LogLevel.error;
  message = codes "boom";
  exception_type = some (codes "KeyError");
  stack_trace = none;
  metadata = [];
  timestamp = aware 500;
}

-- The same again, louder and later.
abbrev crash_again : LogIngestRequest
crash_again = record crash { log_level = LogLevel.critical; timestamp = aware 700 }

abbrev notice : LogIngestRequest
notice = record crash { log_level = LogLevel.info }

-- A time before the year 1 in UTC.
abbrev too_early : LogIngestRequest
too_early = record crash { timestamp = record { wall = 1; tzinfo = some (east 2) } }

abbrev crash_key : Key
crash_key = record {
  service_name = codes "billing";
  environment = LogEnvironment.production;
  fingerprint = fingerprint_of env crash;
}

ingest_each-tally_example :
    tally
      (ingest_each env (crash ∷ notice ∷ too_early ∷ crash_again ∷ []) home).working.error_groups
      crash_key
    ≡ 0 + how_many (is_occurrence env crash_key) (crash ∷ notice ∷ too_early ∷ crash_again ∷ [])
unfolding program
ingest_each-tally_example =
    ingest_each-tally env crash_key (crash ∷ notice ∷ too_early ∷ crash_again ∷ []) home

abbrev bulk : JobRequest
bulk = record {
  job_type = BackgroundJobType.bulk_log_ingest;
  payload = record {
    request_hash = some (codes "h");
    logs = some (crash ∷ too_early ∷ []);
    failures = none;
    group_id = none;
    requested_by = none;
  };
  total_items = 2;
  created_by = some 1;
  idempotency_key = some (codes "key-0001");
  scope_key = none;
}

abbrev scoped : JobRequest
scoped = record bulk { idempotency_key = none; scope_key = some (codes "group:1") }

abbrev with_job : BackgroundJob → World env
with_job job = world_of (record (db []) { background_jobs = job ∷ [] })

create_job-repeated_example :
    (create_job env bulk (create_job env bulk home).1).0 ≡ ok (created env bulk home)
unfolding program
create_job-repeated_example =
    ap (λ p. p.0)
      (create_job-repeated env bulk home (codes "key-0001") refl
        (create_job-new env bulk home refl refl refl).0)

persist_log-together_example :
    (a : Log) × (b : Log) × ((persist_log env crash home).0 ≡ ok a)
    × ((persist_log env crash_again (persist_log env crash home).1).0 ≡ ok b)
    × (a.error_group_id ≢ none)
    × (b.error_group_id ≡ a.error_group_id)
unfolding program
persist_log-together_example =
    persist_log-together env crash crash_again home 500 700 refl refl refl refl refl refl refl

persist_log-OccurrencesCoverLogs_example :
    OccurrencesCoverLogs
      (persist_log env crash home).1.working.logs
      (persist_log env crash home).1.working.error_groups
unfolding program
persist_log-OccurrencesCoverLogs_example =
    persist_log-OccurrencesCoverLogs env crash home (λ n. omega arith)

process_bulk-completes_example :
    let (answer, w') =
      process_bulk_ingestion_job env (200 ∷ []) none (with_job (created env bulk home)) in
    (success : ℕ) × (failure : ℕ) × (job' : BackgroundJob) × (answer
      ≡ ok (done (200 ∷ []) success failure (status_of failure)))
    × (success + failure ≡ 2)
    × (length w'.committed.logs ≡ 0 + success)
    × (find_first (has_job_id (200 ∷ [])) w'.committed.background_jobs ≡ some job')
    × (job'.status ≡ status_of failure)
    × (job'.processed_items ≡ 2)
    × (job'.success_count ≡ success)
    × (job'.failure_count ≡ failure)
unfolding program
process_bulk-completes_example =
    process_bulk-completes env (200 ∷ []) none (created env bulk home)
      (with_job (created env bulk home)) refl refl refl refl

process_bulk-once_example :
    let w' : World env =
      (process_bulk_ingestion_job env (200 ∷ []) none (with_job (created env bulk home))).1 in
    let (answer, w'') = process_bulk_ingestion_job env (200 ∷ []) (some (codes "again")) w' in
    (failures : ℕ) × (answer ≡ ok (already (status_of failures))) × (w''.committed ≡ w'.committed)
unfolding program
process_bulk-once_example =
    process_bulk-once env (200 ∷ []) none (some (codes "again")) (created env bulk home)
      (with_job (created env bulk home)) refl refl refl refl

abbrev rows : List ℕ
rows = 5 ∷ 4 ∷ 3 ∷ 2 ∷ 1 ∷ []

first_pages-all_example : first_pages (total_pages_of (length rows) 2) 2 rows ≡ rows
unfolding program
first_pages-all_example = first_pages-all 2 rows (omega arith)

abbrev one_log : World env
one_log = world_of (record (db []) { logs = grouped_log env notice home 500 ∷ [] })
