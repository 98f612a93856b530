-- ===== src/System/Changes.antt =====
-- The changes of groups, the deletion of logs and the rows of analyses keep the tables sound.
use loglens_api.Base.{ℕ, ◌≡◌, refl, Bool, Option, List, [], ◌∷◌, arith, inl, inr, Bool-cases}
use loglens_api.Table.{update_where, delete_where}
use loglens_api.Table.Unique.{
  IsNumbered, IsNumbered-insert_row, IsNumbered-update_where, IsNumbered-delete_where,
  AtMostOne-update_where,
}
use loglens_api.Models.{Log, ErrorGroup, ErrorAnalysis}
use loglens_api.Models.Enums.{ErrorGroupStatus}
use loglens_api.Effect.{Env, World, Db, Sequences, QueuedTask}
use loglens_api.Effect.Keeps.{Keeps}
use loglens_api.Repositories.ErrorGroups.{
  GroupValues, is_same_group, update_status, update_assignment,
}
use loglens_api.Repositories.Logs.{delete_log}
use loglens_api.Repositories.Analyses.{create_pending_analysis, save_analysis}
use loglens_api.Logs.Counting.{in_group, occurrences}
use loglens_api.Logs.Deleting.{length-select_where-delete_where-le}
use loglens_api.System.Logs.{later-DbIsSound}
use loglens_api.System.Sound.{LogsAreSound, DbIsSound, IsSound}

occurrences-update_where :
    (n : ℕ) (p : ErrorGroup → Bool) (f : ErrorGroup → ErrorGroup) (gs : List ErrorGroup)
    → ((g : ErrorGroup) → (f g).id ≡ g.id)
    → ((g : ErrorGroup) → (f g).occurrence_count ≡ g.occurrence_count)
    → occurrences n (update_where p f gs) ≡ occurrences n gs
unfolding occurrences update_where
occurrences-update_where n p f [] id count = refl
occurrences-update_where n p f (g ∷ gs) id count =
    let rest = occurrences-update_where n p f gs id count in
    elim (Bool-cases (p g)) [ inl e ↦ rw (e, rest, id g, count g) refl | inr e ↦ rw (e, rest) refl ]

module _ {s : Sequences} {q : List QueuedTask} {d : Db} where
  logs-DbIsSound :
      {gs : List ErrorGroup} {ls : List Log}
      → DbIsSound s q d
      → LogsAreSound s.next_group s.next_log gs ls
      → DbIsSound s q (record d { error_groups = gs; logs = ls })
  logs-DbIsSound h logs = record {
    users = h.users;
    tokens = h.tokens;
    logs = logs;
    jobs = h.jobs;
    analyses = h.analyses;
  }

module _ {env : Env} (w : World env) where
  -- A change of groups that keeps ids, keys and counts.
  group_change-IsSound :
      (p : ErrorGroup → Bool) (f : ErrorGroup → ErrorGroup)
      → ((g : ErrorGroup) → (f g).id ≡ g.id)
      → ((g : ErrorGroup) → (f g).occurrence_count ≡ g.occurrence_count)
      → ((v : GroupValues) (g : ErrorGroup) → is_same_group v (f g) ≡ is_same_group v g)
      → IsSound w
      → IsSound (record w {
        working = record w.working { error_groups = update_where p f w.working.error_groups };
      })
  group_change-IsSound p f id count key h = (
    h.0,
    logs-DbIsSound h.1 (record {
      group_ids =
          IsNumbered-update_where _ p f 0 w.sequences.next_group w.working.error_groups id
            h.1.logs.group_ids;
      log_ids = h.1.logs.log_ids;
      keys = λ v.
          AtMostOne-update_where (is_same_group v) p f w.working.error_groups
            (λ g. elim (Bool-cases (p g)) [ inl e ↦ rw (e, key v g) refl | inr e ↦ rw e refl ])
            (h.1.logs.keys v);
      counts = λ n.
          rw (occurrences-update_where n p f w.working.error_groups id count) (h.1.logs.counts n);
    }),
    h.2,
  )

  pub deletion-IsSound :
      (p : Log → Bool)
      → IsSound w
      → IsSound (record w { working = record w.working { logs = delete_where p w.working.logs } })
  deletion-IsSound p h = (
    h.0,
    logs-DbIsSound h.1 (record {
      group_ids = h.1.logs.group_ids;
      log_ids = IsNumbered-delete_where _ p 0 w.sequences.next_log w.working.logs h.1.logs.log_ids;
      keys = h.1.logs.keys;
      counts = λ n. omega (
        arith,
        h.1.logs.counts n,
        length-select_where-delete_where-le (in_group n) p w.working.logs,
      );
    }),
    h.2,
  )

  analyses-DbIsSound :
      {s : Sequences} {q : List QueuedTask} {d : Db} {rows : List ErrorAnalysis}
      → DbIsSound s q d
      → IsNumbered (λ a. a.id) 0 s.next_analysis rows
      → DbIsSound s q (record d { error_analyses = rows })
  analyses-DbIsSound h analyses = record {
    users = h.users;
    tokens = h.tokens;
    logs = h.logs;
    jobs = h.jobs;
    analyses = analyses;
  }

module _ {env : Env} where
  pub update_status-IsSound :
      (g : ErrorGroup) (status : ErrorGroupStatus)
      → Keeps IsSound (update_status {env = env} g status)
  unfolding update_status
  update_status-IsSound g status = record {
    at = λ w. group_change-IsSound w _ _ (λ g. refl) (λ g. refl) (λ v g. refl);
  }

  pub update_assignment-IsSound :
      (g : ErrorGroup) (assignee : Option ℕ)
      → Keeps IsSound (update_assignment {env = env} g assignee)
  unfolding update_assignment
  update_assignment-IsSound g assignee = record {
    at = λ w. group_change-IsSound w _ _ (λ g. refl) (λ g. refl) (λ v g. refl);
  }

  pub delete_log-IsSound : (l : Log) → Keeps IsSound (delete_log {env = env} l)
  unfolding delete_log
  delete_log-IsSound l = record { at = λ w. deletion-IsSound w _ }

  pub create_pending_analysis-IsSound :
      (group_id created_by : ℕ)
      → Keeps IsSound (create_pending_analysis {env = env} group_id created_by)
  unfolding create_pending_analysis
  create_pending_analysis-IsSound group_id created_by = record {
    at = λ w h. (
      later-DbIsSound refl refl (omega arith) (omega arith) (omega arith) h.0,
      analyses-DbIsSound w (later-DbIsSound refl refl (omega arith) (omega arith) (omega arith) h.1)
          (IsNumbered-insert_row _ 0 w.sequences.next_analysis _ w.working.error_analyses refl
            h.1.analyses),
      h.2,
    );
  }

  pub save_analysis-IsSound :
      (change : ErrorAnalysis → ErrorAnalysis) (a : ErrorAnalysis)
      → ((a : ErrorAnalysis) → (change a).id ≡ a.id)
      → Keeps IsSound (save_analysis {env = env} change a)
  unfolding save_analysis
  save_analysis-IsSound change a id = record {
    at = λ w h. (
      h.0,
      analyses-DbIsSound w h.1 (
          IsNumbered-update_where _ _ _ 0 w.sequences.next_analysis w.working.error_analyses id
            h.1.analyses),
      h.2,
    );
  }
