-- ===== src/Effect/Store.antt =====
-- The state: the tables, the sequences behind their ids, and the session's transaction.
use loglens_api.Base.{ℕ, List}
use loglens_api.Text.{Text}
use loglens_api.Models.{Instant, User, RefreshToken, ErrorGroup, Log, BackgroundJob, ErrorAnalysis}
use loglens_api.Models.Enums.{BackgroundJobType}
use loglens_api.Effect.Externals.{Env}

-- Each table in the order of insertion.
pub record Db : Type 0 where
  pub users : List User
  pub refresh_tokens : List RefreshToken
  pub error_groups : List ErrorGroup
  pub logs : List Log
  pub background_jobs : List BackgroundJob
  pub error_analyses : List ErrorAnalysis

-- A task that was handed to Celery's broker by `delay`.
pub data QueuedTask : Type 0 where
  bulk_ingestion : Text → QueuedTask
  group_analysis : Text → QueuedTask

-- The next id of each table. A sequence does not go back when a transaction is rolled back.
pub record Sequences : Type 0 where
  pub next_user : ℕ
  pub next_token : ℕ
  pub next_group : ℕ
  pub next_log : ℕ
  pub next_analysis : ℕ

-- `committed` is what other sessions see, `working` what this one does. `readings` counts how often
-- the clock was read, `draws` how much randomness was used. The gauge of active jobs of a type is
-- `jobs_created` less `active_decrements`: both move it by one. `queue` holds the tasks in the order in
-- which they were handed over.
pub record World (env : Env) : Type 0 where
  pub committed : Db
  pub working : Db
  pub sequences : Sequences
  pub transaction_time : Instant
  pub redis : env.Redis
  pub readings : ℕ
  pub draws : ℕ
  pub jobs_created : BackgroundJobType → ℕ
  pub active_decrements : BackgroundJobType → ℕ
  pub queue : List QueuedTask
