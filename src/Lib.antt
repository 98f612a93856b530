-- ===== src/Lib.antt =====
-- LogLens API: a FastAPI backend that ingests application logs, groups the errors among them, and
-- runs background jobs over both. Paths below are those of the repository.
--
-- A method of a service is an action: a function from the world to a result and a world, which it
-- also gives when it raises. The world (Effect/Store) holds the tables as committed and as the
-- session sees them, the sequences of the ids, the time of the transaction, Redis, how often the
-- clock and the random source were read, and the two counters behind the gauge of active jobs.
-- `commit` and `rollback` copy the tables one way or the other. What other packages do is the record
-- Env (Effect/Externals): argon2, jose, hashlib, uuid, Redis, the clock, JSON, regular expressions,
-- `str` of an exception, ILIKE, HTTP, the validation of
-- what a provider of analyses answers, the probes of the system routes. Theorems hold for every Env; the limiter's take as a hypothesis what
-- Redis documents of counters (RateLimit.Laws.Counters and RateLimit.Windows.Increments).
--
-- Base            shared names, lists over native numbers, Boolean tests
-- Text            Python's str as code points: strip, lower, int(), str()
-- Table           SELECT, UPDATE, DELETE and INSERT on the list of a table's rows
-- Models          app/models: a record for each table, the enumerations of enums.py
-- Errors          app/core/exceptions.py
-- Effect          the world, actions, savepoints, what the program takes from other packages
-- Config          the validators of app/core/config.py
-- Clock           _as_utc_aware of app/services/auth.py and app/services/logs.py
-- Security        app/core/security.py
-- RateLimit       app/core/rate_limit.py
-- Repositories    app/repositories: users, refresh tokens, jobs, error groups, logs and analyses
-- Auth            app/services/auth.py: register_user, login_user, refresh_session, logout, logout_all
-- Jobs            app/services/jobs.py, and the two job counters of app/observability/metrics.py
-- Fingerprint     app/services/fingerprint.py
-- Logs            app/services/logs.py: persist_log, ingest_log, enqueue_bulk_ingestion_job, get_log,
--                 delete_log, list_logs
-- ErrorGroups     app/services/error_groups.py
-- Users           app/services/users.py
-- Authorization   app/api/dependencies/auth.py
-- Pagination      the pages of a list, the number of pages, the order of the rows
-- Ai              app/services/ai_prompt.py and app/integrations/ai: prompts and providers
-- Analyses        app/services/analysis.py
-- Workers         app/workers/tasks: _common.py, log_tasks.py (Bulk), cleanup_tasks.py (Cleanup) and
--                 analysis_tasks.py (Analysis)
-- Analytics       app/workers/tasks/analytics_tasks.py and app/services/analytics.py
-- Api             app/api: the requests and the answers, the routes (Guards, *Routes, Routes), who may
--                 use them (Access), app/core/handlers.py and middleware.py (Replies, Tracing)
-- Connections     app/database/session.py and app/core/redis.py: engine, factory and client of a process
-- Scripts         scripts/seed_admin_user.py: the first administrator
-- System          the program as a whole: its steps and what it comes to (Reachable), what holds of the tables
--                 at all times (Sound, References), and that every repository, service, task and route keeps it
-- Tests           a concrete environment in which the theorems are applied
--
-- The services call the repositories, and Auth also the limiter and the security functions. The bulk
-- job calls persist_log for every item in a savepoint and reports to the jobs table, each item in a
-- commit of its own. Analyses creates a job through Jobs; the task that runs it asks a provider of Ai
-- and records the answer, or the failure, on the analysis and on the job. A request (Api.Request)
-- runs in a session of its own: the guard of the route, then a service, then for two routes a task,
-- which is queued in the world or, in eager mode, run at once. `dispatch` turns what comes of it into
-- a reply.
--
-- Bounds. Numbers are unbounded: a column's width, the length of a text column and Python's limit on
-- the digits of an int are not modelled. Instants are microseconds since year 1. Loops are recursion
-- on a list; two run on fuel. `str` gets the number itself, which has no more digits than that. The
-- loop of the clean-up gets one round more than there are logs, and each round but the last deletes
-- one at least.
--
-- Not modelled. One session acts at a time; what another session may do between two statements is
-- stated where a theorem needs it (register_new). Of the database's failures only violations of the
-- unique indexes are modelled, and neither foreign keys nor lost connections. The session's identity
-- map is left out: a look-up reads the table. `lower` is that of ASCII. Validation of requests
-- by pydantic comes before the model. A time that filters a list is given as an instant. Logging,
-- tracing, the other metrics, CORS and Celery's retries are left out. GROUP BY gives its rows in the
-- order of the first log of each, and an average stays a quotient. That the JSON which the analytics
-- task writes can be read as a summary is not shown: both are parameters.
pub mod Base
pub mod Text
pub mod Table
pub mod Models
pub mod Errors
pub mod Effect
pub mod Security
pub mod Config
pub mod Repositories
pub mod RateLimit
pub mod Clock
pub mod Auth
pub mod Jobs
pub mod Fingerprint
pub mod Pagination
pub mod Logs
pub mod ErrorGroups
pub mod Users
pub mod Authorization
pub mod Ai
pub mod Analyses
pub mod Workers
pub mod Analytics
pub mod Api
pub mod Scripts
pub mod System
pub mod Connections
mod Tests
