-- ===== src/Tests/Reach.antt =====
-- A state that the program comes to: an administrator was seeded and has sent a bulk request.
use loglens_api.Base.{◌≡◌, ◌==◌, true, refl, some, none, [], ◌∷◌, if◌then◌else◌}
use loglens_api.Text.{codes, text_eq, strip, lower, lstrip, rstrip, is_space}
use loglens_api.Text.Decimal.{parse_int, str}
use loglens_api.Clock.{as_utc_aware}
use loglens_api.Table.{find_first, select_where, update_where, insert_row}
use loglens_api.Models.{BackgroundJob, ErrorGroup}
use loglens_api.Fingerprint.{
  collapse_from, splitlines_from, splitlines, join, normalize_common, normalize_message,
  normalize_lines, normalize_stack_trace, generate_fingerprint,
}
use loglens_api.Repositories.ErrorGroups.{upsert_group}
use loglens_api.Repositories.Logs.{create_log}
use loglens_api.Effect.{World, pure}
use loglens_api.Repositories.Users.{create_user, get_by_email}
use loglens_api.Repositories.Users as user_repo
use loglens_api.Repositories.Jobs as job_repo
use loglens_api.Repositories.Jobs.{has_job_id}
use loglens_api.Security.{access_signing_key, decode_access_token, hash_password}
use loglens_api.Users.{get_user_by_id}
use loglens_api.Authorization.{get_current_user, require_developer_or_admin}
use loglens_api.Logs.{persist_log, ingest_log, BulkLogIngestRequest, enqueue_bulk_ingestion_job}
use loglens_api.Jobs.{create_job, create_new_job, increment_background_jobs_created}
use loglens_api.Workers.{session_scope}
use loglens_api.Workers.Bulk.{already, is_done, run_bulk, process_bulk_ingestion_job}
use loglens_api.Api.{Request}
use loglens_api.Api.Guards.{admit, admitted, delay}
use loglens_api.Api.LogRoutes.{create_log_route, create_bulk_logs_route}
use loglens_api.Api.Routes.{handle, run}
use loglens_api.Scripts.{configured, seed, seed_admin_user}
use loglens_api.System.Sound.{IsSound}
use loglens_api.System.Reachable.{
  empty_db, Step, Reachable, Reachable-IsSound, Reachable-queued_bulk,
}
use loglens_api.System.References.{Reachable-group_of_log}
use loglens_api.Logs.Grouping.{grouped_log}
use loglens_api.Tests.Sample.{env, world_of}
use loglens_api.Tests.Ingest.{crash}

abbrev before : World env
before = record (world_of empty_db) {
  sequences = record {
    next_user = 1;
    next_token = 1;
    next_group = 1;
    next_log = 1;
    next_analysis = 1;
  };
}

abbrev bulk : BulkLogIngestRequest
bulk = record { idempotency_key = none; logs = crash ∷ [] }

abbrev seeded : World env
seeded = (seed_admin_user env before).1

abbrev sent : World env
sent = (run env (Request.create_bulk_logs (some (codes "access-1")) bulk) seeded).1

abbrev sent-Reachable : Reachable env sent
sent-Reachable =
    Reachable.after (Reachable.after (Reachable.fresh before refl refl refl) Step.seed_run)
      (Step.request (Request.create_bulk_logs (some (codes "access-1")) bulk))

program : Unit {0}
unfolding text_eq strip lower is_space find_first insert_row parse_int access_signing_key
    decode_access_token hash_password get_user_by_id user_repo.get_by_id create_user get_by_email
    get_current_user require_developer_or_admin admit admitted delay create_bulk_logs_route handle
    run configured seed seed_admin_user enqueue_bulk_ingestion_job create_job create_new_job
    job_repo.create_job increment_background_jobs_created lstrip rstrip select_where update_where
    str as_utc_aware collapse_from splitlines_from splitlines join normalize_common
    normalize_message normalize_lines normalize_stack_trace generate_fingerprint upsert_group
    create_log persist_log ingest_log create_log_route
program = tt

Reachable-IsSound_example : IsSound sent
Reachable-IsSound_example = Reachable-IsSound env sent-Reachable

Reachable-queued_bulk_example :
    (job : BackgroundJob) × (find_first (has_job_id (201 ∷ [])) sent.working.background_jobs
      ≡ some job)
    × (process_bulk_ingestion_job env (201 ∷ []) none sent
        ≡ session_scope
            (if is_done job.status
              then pure (already job.status)
              else run_bulk env (201 ∷ []) none job)
            sent)
unfolding program
Reachable-queued_bulk_example = Reachable-queued_bulk env (201 ∷ []) none [] [] sent-Reachable refl

abbrev logged : World env
logged = (run env (Request.create_log (some (codes "access-1")) crash) seeded).1

abbrev logged-Reachable : Reachable env logged
logged-Reachable =
    Reachable.after (Reachable.after (Reachable.fresh before refl refl refl) Step.seed_run)
      (Step.request (Request.create_log (some (codes "access-1")) crash))

Reachable-group_of_log_example :
    (g : ErrorGroup) × (find_first (λ g. g.id == 1) logged.committed.error_groups ≡ some g)
unfolding program
Reachable-group_of_log_example =
    Reachable-group_of_log (λ _. true) (grouped_log env crash seeded 500) 1 logged-Reachable refl
      refl
