-- ===== src/System/Sound.antt =====
-- What holds of the tables at all times: keys are unique, groups count their logs, at most one job of a
-- scope is active, and a task that was handed over has its job.
use loglens_api.Base.{ℕ, ◌≡◌, true, some, List, All}
use loglens_api.Text.{Text}
use loglens_api.Table.{find_first}
use loglens_api.Table.Unique.{IsNumbered, AtMostOne}
use loglens_api.Models.{User, RefreshToken, ErrorGroup, Log, BackgroundJob}
use loglens_api.Models.Enums.{BackgroundJobType}
use loglens_api.Effect.{Env, World, Db, Sequences, QueuedTask, bulk_ingestion, group_analysis}
use loglens_api.Repositories.Users.{has_email, is_some}
use loglens_api.Repositories.RefreshTokens.{has_jti_hash}
use loglens_api.Repositories.Jobs.{has_job_id, has_idempotency_key}
use loglens_api.Logs.Upserts.{GroupsAreUnique}
use loglens_api.Logs.Counting.{OccurrencesCoverLogs}
use loglens_api.Jobs.Create.{ScopesAreExclusive}

pub record UsersAreSound (next : ℕ) (users : List User) : Type 0 where
  pub ids : IsNumbered (λ u. u.id) 0 next users
  pub emails : (e : Text) → AtMostOne (has_email e) users

pub record TokensAreSound (next : ℕ) (tokens : List RefreshToken) : Type 0 where
  pub ids : IsNumbered (λ t. t.id) 0 next tokens
  pub hashes : (h : Text) → AtMostOne (has_jti_hash h) tokens

-- The groups and the logs, which refer to them.
pub record LogsAreSound (next_group next_log : ℕ) (groups : List ErrorGroup) (logs : List Log)
    : Type 0 where
  pub group_ids : IsNumbered (λ g. g.id) 0 next_group groups
  pub log_ids : IsNumbered (λ l. l.id) 0 next_log logs
  pub keys : GroupsAreUnique groups
  pub counts : OccurrencesCoverLogs logs groups

abbrev pub HasJob : Text → List BackgroundJob → Type 0
HasJob id jobs = is_some (find_first (has_job_id id) jobs) ≡ true

abbrev pub job_of : QueuedTask → Text
job_of (bulk_ingestion id) = id
job_of (group_analysis id) = id

pub record JobsAreSound (queue : List QueuedTask) (jobs : List BackgroundJob) : Type 0 where
  pub ids : (i : Text) → AtMostOne (has_job_id i) jobs
  pub keys : (t : BackgroundJobType) (k : Text) → AtMostOne (has_idempotency_key t (some k)) jobs
  pub scopes : ScopesAreExclusive jobs
  pub queued : All (λ t. HasJob (job_of t) jobs) queue

pub record DbIsSound (s : Sequences) (queue : List QueuedTask) (d : Db) : Type 0 where
  pub users : UsersAreSound s.next_user d.users
  pub tokens : TokensAreSound s.next_token d.refresh_tokens
  pub logs : LogsAreSound s.next_group s.next_log d.error_groups d.logs
  pub jobs : JobsAreSound queue d.background_jobs
  pub analyses : IsNumbered (λ a. a.id) 0 s.next_analysis d.error_analyses

-- Both views of the tables are sound, and no job that the session sees is unknown to the others.
abbrev pub IsSound : {env : Env} → World env → Type 0
IsSound w =
    DbIsSound w.sequences w.queue w.committed
    × DbIsSound w.sequences w.queue w.working
    × All (λ j. HasJob j.id w.committed.background_jobs) w.working.background_jobs
