-- ===== src/Tests/Cleanup.antt =====
-- A clean-up of three logs, one of which is kept.
use loglens_api.Base.{◌+◌, ◌≡◌, refl, false, true, none, some, [], ◌∷◌, arith}
use loglens_api.Text.{codes}
use loglens_api.Models.{Log}
use loglens_api.Models.Enums.{LogEnvironment, LogLevel}
use loglens_api.Table.{select_where, delete_where, insert_sorted, order_by}
use loglens_api.Effect.{Env, World, ok}
use loglens_api.Workers.Cleanup.{
  next_batch, cleanup_batches, cleanup_session, retention_threshold, cleanup_old_logs,
}
use loglens_api.Workers.Cleanup.Batches.{HasDistinctIds}
use loglens_api.Workers.Cleanup.Retention.{cleanup_old_logs-deletes, cleanup_old_logs-dry_run}
use loglens_api.Tests.Sample.{env, world_in, db}

-- Forty days after the first instant.
abbrev later : Env
later = record env { clock = λ n. 3456000000000 + n }

abbrev pub line : Log
line = record {
  id = 1;
  service_name = codes "billing";
  environment = LogEnvironment.production;
  log_level = LogLevel.info;
  message = codes "boom";
  normalized_message = codes "boom";
  exception_type = none;
  stack_trace = none;
  metadata = [];
  fingerprint = none;
  error_group_id = none;
  timestamp = 5;
  created_at = 5;
}

abbrev pub recent_line : Log
recent_line = record line { id = 2; timestamp = 3000000000000 }

abbrev archive : World later
archive =
    world_in later [] (record (db []) { logs = line ∷ recent_line ∷ record line { id = 3 } ∷ [] })

archive-HasDistinctIds : HasDistinctIds archive.working.logs
unfolding select_where
archive-HasDistinctIds i = ground arith

program : Unit {0}
unfolding select_where delete_where insert_sorted order_by next_batch cleanup_batches
    cleanup_session retention_threshold cleanup_old_logs
program = tt

cleanup_old_logs-deletes_example :
    ((cleanup_old_logs later none archive).0
      ≡ ok (some (record { dry_run = false; deleted_count = 2 })))
    × ((cleanup_old_logs later none archive).1.committed
        ≡ record archive.committed { logs = recent_line ∷ [] })
unfolding program
cleanup_old_logs-deletes_example =
    cleanup_old_logs-deletes later none archive refl refl archive-HasDistinctIds (omega arith)
      (omega arith)

cleanup_old_logs-dry_run_example :
    ((cleanup_old_logs later (some true) archive).0
      ≡ ok (some (record { dry_run = true; deleted_count = 2 })))
    × ((cleanup_old_logs later (some true) archive).1.committed ≡ archive.committed)
unfolding program
cleanup_old_logs-dry_run_example =
    cleanup_old_logs-dry_run later (some true) archive refl (omega arith)
