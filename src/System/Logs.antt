-- ===== src/System/Logs.antt =====
-- Storing a log keeps the tables sound.
use loglens_api.Base.{◌+◌, ◌≤◌, ◌≡◌, refl, Bool, true, false, List, arith, inl, inr, Option-cases}
use loglens_api.Table.{find_first}
use loglens_api.Table.Unique.{
  IsNumbered, IsNumbered-later, IsNumbered-insert_row, IsNumbered-update_where,
}
use loglens_api.Models.{Instant, LogIngestRequest}
use loglens_api.Effect.{Env, World, Db, Sequences, QueuedTask}
use loglens_api.Effect.Keeps.{Keeps, keeps_rules}
use loglens_api.Repositories.ErrorGroups.{GroupValues, is_same_group, upsert_group}
use loglens_api.Repositories.Logs.{LogValues, create_log}
use loglens_api.Logs.{persist_at, persist_log}
use loglens_api.Logs.Grouping.{persist_log-GroupsAreUnique, persist_log-outcome}
use loglens_api.Workers.Bulk.{attempt}
use loglens_api.Workers.BulkLaws.{attempt_ok, attempt_err}
use loglens_api.Logs.Counting.{persist_log-OccurrencesCoverLogs}
use loglens_api.System.Sound.{DbIsSound, IsSound}

module _ {s : Sequences} {q : List QueuedTask} {d : Db} where
  -- Sequences that have moved on, but for those of users and of tokens.
  pub later-DbIsSound :
      {s' : Sequences}
      → s'.next_user ≡ s.next_user
      → s'.next_token ≡ s.next_token
      → s.next_group ≤ s'.next_group
      → s.next_log ≤ s'.next_log
      → s.next_analysis ≤ s'.next_analysis
      → DbIsSound s q d
      → DbIsSound s' q d
  later-DbIsSound {s'} user token group log analysis h = record {
    users = rw user h.users;
    tokens = rw token h.tokens;
    logs = record {
      group_ids =
          IsNumbered-later _ 0 s.next_group s'.next_group d.error_groups group h.logs.group_ids;
      log_ids = IsNumbered-later _ 0 s.next_log s'.next_log d.logs log h.logs.log_ids;
      keys = h.logs.keys;
      counts = h.logs.counts;
    };
    jobs = h.jobs;
    analyses =
        IsNumbered-later _ 0 s.next_analysis s'.next_analysis d.error_analyses analysis h.analyses;
  }

-- The ids of groups and of logs, in the tables that the session sees.
abbrev LogsAreNumbered : {env : Env} → World env → Type 0
LogsAreNumbered w =
    IsNumbered (λ g. g.id) 0 w.sequences.next_group w.working.error_groups
    × IsNumbered (λ l. l.id) 0 w.sequences.next_log w.working.logs

module _ {env : Env} where
  upsert_group-LogsAreNumbered :
      (v : GroupValues) → Keeps LogsAreNumbered (upsert_group {env = env} v)
  unfolding upsert_group
  upsert_group-LogsAreNumbered v = record {
    at = λ w h. elim (Option-cases (find_first (is_same_group v) w.working.error_groups)) [
      | inl free ↦
          rw free (
            IsNumbered-insert_row _ 0 w.sequences.next_group _ w.working.error_groups refl h.0,
            h.1,
          )
      | inr (g, known) ↦ rw known (
        IsNumbered-update_where _ _ _ 0 (w.sequences.next_group + 1) w.working.error_groups
            (λ g. refl)
            (IsNumbered-later _ 0 w.sequences.next_group (w.sequences.next_group + 1)
              w.working.error_groups (omega arith) h.0),
        h.1,
      )
    ];
  }

  create_log-LogsAreNumbered : (v : LogValues) → Keeps LogsAreNumbered (create_log {env = env} v)
  unfolding create_log
  create_log-LogsAreNumbered v = record {
    at = λ w h. (h.0, IsNumbered-insert_row _ 0 w.sequences.next_log _ w.working.logs refl h.1);
  }

module _ (env : Env) (p : LogIngestRequest) where
  persist_at-LogsAreNumbered :
      (grouped : Bool) (at : Instant) → Keeps LogsAreNumbered (persist_at env grouped p at)
  persist_at-LogsAreNumbered false at = create_log-LogsAreNumbered _
  persist_at-LogsAreNumbered true at =
      search (keeps_rules, upsert_group-LogsAreNumbered, create_log-LogsAreNumbered)

  persist_log-LogsAreNumbered : Keeps LogsAreNumbered (persist_log env p)
  unfolding persist_log
  persist_log-LogsAreNumbered = search (keeps_rules, persist_at-LogsAreNumbered)

  -- What storing a log leaves alone.
  persist_log-frame :
      (w : World env)
      → let w' = (persist_log env p w).1 in
        (w'.committed ≡ w.committed)
        × (w'.queue ≡ w.queue)
        × (w'.working.users ≡ w.working.users)
        × (w'.working.refresh_tokens ≡ w.working.refresh_tokens)
        × (w'.working.background_jobs ≡ w.working.background_jobs)
        × (w'.working.error_analyses ≡ w.working.error_analyses)
        × (w'.sequences.next_user ≡ w.sequences.next_user)
        × (w'.sequences.next_token ≡ w.sequences.next_token)
        × (w'.sequences.next_analysis ≡ w.sequences.next_analysis)
        × (w.sequences.next_group ≤ w'.sequences.next_group)
        × (w.sequences.next_log ≤ w'.sequences.next_log)
  unfolding persist_log upsert_group create_log
  persist_log-frame w = ground arith

  pub persist_log-IsSound : Keeps IsSound (persist_log env p)
  persist_log-IsSound = record {
    at = λ w h.
        let w' : World env = (persist_log env p w).1 in
        let (
          committed, queue, users, tokens, jobs, analyses, next_user, next_token, next_analysis,
          next_group, next_log,
        ) =
          persist_log-frame w in
        let (group_ids, log_ids) =
          persist_log-LogsAreNumbered.at w (h.1.logs.group_ids, h.1.logs.log_ids) in
        let before : DbIsSound w'.sequences w'.queue w.committed = rw queue (
          later-DbIsSound next_user next_token next_group next_log (omega (arith, next_analysis))
            h.0) in
        (
          rw committed before,
          record {
            users = rw (users, next_user) h.1.users;
            tokens = rw (tokens, next_token) h.1.tokens;
            logs = record {
              group_ids = group_ids;
              log_ids = log_ids;
              keys = persist_log-GroupsAreUnique env p w h.1.logs.keys;
              counts = persist_log-OccurrencesCoverLogs env p w h.1.logs.counts;
            };
            jobs = rw (queue, jobs) h.1.jobs;
            analyses = rw (analyses, next_analysis) h.1.analyses;
          },
          rw (committed, jobs) h.2,
        );
  }

  -- One item of a bulk job: an exception takes back what it wrote.
  pub attempt-IsSound : Keeps IsSound (attempt env p)
  attempt-IsSound = record {
    at = λ w h. elim (persist_log-outcome env p w) [
      | inl (log, answer, _, _) ↦ rw (attempt_ok env p w answer) (persist_log-IsSound.at w h)
      | inr e ↦ rw (attempt_err env p w e) h
    ];
  }
