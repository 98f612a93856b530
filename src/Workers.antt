-- ===== src/Workers.antt =====
-- app/workers/tasks: what the Celery tasks do to a job.
pub mod Bulk
pub mod BulkLaws
pub mod BulkEnds
pub mod BulkOnce
pub mod Cleanup
pub mod Analysis
use loglens_api.Base.{◌+◌}
use loglens_api.Effect.{Env, World, Action, ok, err}

-- `async with session_scope()`: closing the session drops what was not committed.
abbrev pub session_scope : {env : Env} {A : Type 0} → Action env A → Action env A
session_scope {env} m w =
    let (r, w') = m w in
    (
      r,
      record w' {
        working = w'.committed;
        transaction_time = env.clock w'.readings;
        readings = w'.readings + 1;
      },
    )

-- `async with session.begin_nested()`: an exception takes back the writes of the block, not the
-- values drawn from sequences.
abbrev pub begin_nested : {env : Env} {A : Type 0} → Action env A → Action env A
begin_nested m w =
    let (r, w') = m w in
    elim r [ ok a ↦ (ok a, w') | err e ↦ (err e, record w' { working = w.working }) ]
