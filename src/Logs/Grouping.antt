-- ===== src/Logs/Grouping.antt =====
-- `_persist_log` with `upsert_group`: one group for each service, environment and fingerprint.
use loglens_api.Base.{
  ◌≡◌, ◌≢◌, refl, true, false, none, some, List, inl, inr, Bool-cases, Option-cases, arith, ap, ◌∙◌,
  ◌⊎◌,
}
use loglens_api.Table.{find_first, insert_row}
use loglens_api.Clock.{as_utc_aware}
use loglens_api.Models.{Instant, Log, ErrorGroup, LogIngestRequest}
use loglens_api.Errors.{overflow_error}
use loglens_api.Effect.{Env, World, ok, err}
use loglens_api.Repositories.ErrorGroups.{GroupValues, is_same_group, upsert_group}
use loglens_api.Repositories.Logs.{create_log, new_log}
use loglens_api.Logs.{should_group, fingerprint_of, group_values, log_values, persist_log}
use loglens_api.Logs.Upserts.{
  next_group, upsert_group-answer, upsert_group-keeps, GroupsAreUnique,
  upsert_group-GroupsAreUnique,
}

module _ (env : Env) (p : LogIngestRequest) (w : World env) (at : Instant) where
  abbrev pub values : GroupValues
  values = group_values env p at

  -- The group that the log is an occurrence of, and the log.
  abbrev pub group_after : ErrorGroup
  group_after =
      next_group w.sequences.next_group w.transaction_time values
        (find_first (is_same_group values) w.working.error_groups)

  abbrev pub grouped_log : Log
  grouped_log =
      new_log w.sequences.next_log w.transaction_time
        (log_values env p at (some (fingerprint_of env p)) (some group_after.id))

  -- A log of an error level joins the group of its service, environment and fingerprint, which counts
  -- it, and is added to the logs with the group's id.
  pub persist_log-grouped :
      as_utc_aware p.timestamp ≡ some at
      → should_group p.log_level ≡ true
      → let (answer, w') = persist_log env p w in
        (answer ≡ ok grouped_log)
        × (find_first (is_same_group values) w'.working.error_groups ≡ some group_after)
        × (w'.working.logs ≡ insert_row grouped_log w.working.logs)
  unfolding persist_log create_log
  persist_log-grouped time level =
      let (answer, found) = upsert_group-answer {env = env} values w in
      let (logs, jobs, next_log, now, committed) = upsert_group-keeps {env = env} values w in
      rw (time, level) (ground arith)

  -- A log of another level is added as it is, in no group, and the groups stay as they were.
  pub persist_log-plain :
      as_utc_aware p.timestamp ≡ some at
      → should_group p.log_level ≡ false
      → let log = new_log w.sequences.next_log w.transaction_time (log_values env p at none none) in
        let (answer, w') = persist_log env p w in
        (answer ≡ ok log) × (w'.working ≡ record w.working { logs = insert_row log w.working.logs })
  unfolding persist_log create_log
  persist_log-plain time level = rw (time, level) (refl, refl)

  pub persist_log-groups :
      as_utc_aware p.timestamp ≡ some at
      → should_group p.log_level ≡ true
      → (persist_log env p w).1.working.error_groups
        ≡ (upsert_group {env = env} values w).1.working.error_groups
  unfolding persist_log create_log
  persist_log-groups time level =
      let (answer, found) = upsert_group-answer {env = env} values w in
      rw (time, level) (ground arith)

persist_log-jobs :
    (env : Env) (p : LogIngestRequest) (w : World env) (at : Instant)
    → as_utc_aware p.timestamp ≡ some at
    → should_group p.log_level ≡ true
    → (persist_log env p w).1.working.background_jobs ≡ w.working.background_jobs
unfolding persist_log create_log
persist_log-jobs env p w at time level =
    let (answer, found) = upsert_group-answer {env = env} (group_values env p at) w in
    let (logs, jobs, next_log, now, committed) =
      upsert_group-keeps {env = env} (group_values env p at) w in
    rw (time, level) (ground arith)

find_same_key :
    (u v : GroupValues) (gs : List ErrorGroup)
    → u.service_name ≡ v.service_name
    → u.environment ≡ v.environment
    → u.fingerprint ≡ v.fingerprint
    → find_first (is_same_group v) gs ≡ find_first (is_same_group u) gs
find_same_key u v gs service environment fingerprint =
    rw (← service, ← environment, ← fingerprint) refl

-- A later log of the same service, environment and fingerprint is given the same group.
pub persist_log-together :
    (env : Env) (p q : LogIngestRequest) (w : World env) (at at' : Instant)
    → as_utc_aware p.timestamp ≡ some at
    → as_utc_aware q.timestamp ≡ some at'
    → should_group p.log_level ≡ true
    → should_group q.log_level ≡ true
    → p.service_name ≡ q.service_name
    → p.environment ≡ q.environment
    → fingerprint_of env p ≡ fingerprint_of env q
    → (a : Log) × (b : Log) × ((persist_log env p w).0 ≡ ok a)
      × ((persist_log env q (persist_log env p w).1).0 ≡ ok b)
      × (a.error_group_id ≢ none)
      × (b.error_group_id ≡ a.error_group_id)
persist_log-together env p q w at at' time time' level level' service environment fingerprint =
    let (answer, found, logs) = persist_log-grouped env p w at time level in
    let same : find_first (is_same_group (group_values env q at'))
          (persist_log env p w).1.working.error_groups
        ≡ some (group_after env p w at) =
      find_same_key (group_values env p at) (group_values env q at') _ service environment
        fingerprint
      ∙ found in
    (
      grouped_log env p w at,
      grouped_log env q (persist_log env p w).1 at',
      answer,
      (persist_log-grouped env q (persist_log env p w).1 at' time' level').0,
      λ e. cc,
      rw same refl,
    )

-- A time that no UTC time corresponds to is refused, and nothing changes.
pub persist_log-untimed :
    (env : Env) (p : LogIngestRequest) (w : World env)
    → as_utc_aware p.timestamp ≡ none
    → persist_log env p w ≡ (err overflow_error, w)
unfolding persist_log
persist_log-untimed env p w time = rw time refl

-- Whatever is stored, there stays at most one group for each service, environment and fingerprint.
pub persist_log-GroupsAreUnique :
    (env : Env) (p : LogIngestRequest) (w : World env)
    → GroupsAreUnique w.working.error_groups
    → GroupsAreUnique (persist_log env p w).1.working.error_groups
unfolding persist_log create_log
persist_log-GroupsAreUnique env p w unique = elim (Option-cases (as_utc_aware p.timestamp)) [
  | inl time ↦ rw time unique
  | inr (at, time) ↦ elim (Bool-cases (should_group p.log_level)) [
    | inr plain ↦ rw (time, plain) unique
    | inl grouped ↦
        rw (persist_log-groups env p w at time grouped)
          (upsert_group-GroupsAreUnique {env = env} (group_values env p at) w unique)
  ]
]

-- Storing a log adds one row to the logs, or raises without a change; the jobs stay as they were.
pub persist_log-outcome :
    (env : Env) (p : LogIngestRequest) (w : World env)
    → ((log : Log) × ((persist_log env p w).0 ≡ ok log)
        × ((persist_log env p w).1.working.logs ≡ insert_row log w.working.logs)
        × ((persist_log env p w).1.working.background_jobs ≡ w.working.background_jobs))
      ⊎ (persist_log env p w ≡ (err overflow_error, w))
persist_log-outcome env p w = elim (Option-cases (as_utc_aware p.timestamp)) [
  | inl time ↦ inr (persist_log-untimed env p w time)
  | inr (at, time) ↦ elim (Bool-cases (should_group p.log_level)) [
    | inr plain ↦
        let (answer, table) = persist_log-plain env p w at time plain in
        inl (_, answer, ap (λ d. d.logs) table, ap (λ d. d.background_jobs) table)
    | inl grouped ↦
        let (answer, found, logs) = persist_log-grouped env p w at time grouped in
        inl (_, answer, logs, persist_log-jobs env p w at time grouped)
  ]
]
