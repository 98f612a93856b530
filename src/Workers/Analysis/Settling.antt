-- ===== src/Workers/Analysis/Settling.antt =====
-- An analysis that is started ends, whatever the provider does.
use loglens_api.Base.{
  ℕ, ◌≡◌, refl, sym, subst, ap, ◌∙◌, true, false, Option, none, some, List, ◌⊎◌, inl, inr, arith,
  All, length,
}
use loglens_api.Text.{Text}
use loglens_api.Text.Laws.{text_eq→eq}
use loglens_api.Text.Decimal.{pos}
use loglens_api.Table.{find_first}
use loglens_api.Table.Laws.{find_first_fits}
use loglens_api.Models.{BackgroundJob, ErrorAnalysis, ErrorGroup, Log, AiAnalysisResult}
use loglens_api.Models.Enums.{BackgroundJobStatus, BackgroundJobType, ErrorAnalysisStatus}
use loglens_api.Errors.{Error}
use loglens_api.Effect.{Env, World, Action, Result, ok, err, commit, ◌>>=◌, catch}
use loglens_api.Effect.Laws.{bind-ok, bind-err, catch-ok, catch-err}
use loglens_api.Repositories.Users.{same_id}
use loglens_api.Repositories.Jobs.{has_job_id, is_rival, get_by_id, mark_running}
use loglens_api.Repositories.Analyses.{
  first_of, for_group, pending_analysis, create_pending_analysis, get_latest_for_group,
}
use loglens_api.Repositories.ErrorGroups as group_repo
use loglens_api.Jobs.{bump, decrement_active_background_jobs}
use loglens_api.Ai.Prompt.{build_analysis_prompts}
use loglens_api.Ai.Providers.{analyze_error_group}
use loglens_api.Workers.Bulk.{is_done}
use loglens_api.Workers.BulkLaws.{IsTracked}
use loglens_api.Workers.Analysis.{
  AnalysisTaskResult, ran, record_answer, record_failure, finish_analysis, analyze, analyze_again,
  log_samples, run_analysis, run_analysis_with_session, run_error_group_analysis,
}
use loglens_api.Workers.Analysis.Newest.{IsOlder, for_group-newest, stored-newest}
use loglens_api.Workers.Analysis.Starting.{mark_running-only}
use loglens_api.Workers.Analysis.Steps.{
  has_analysis_id, IsStored, Settles, record_answer-Settles, record_failure-Settles,
  analyze_error_group-keeps,
}

-- The job and its analysis have both succeeded, or both failed.
abbrev pub HasEnded : BackgroundJob → ErrorAnalysis → Type 0
HasEnded job a =
    ((job.status ≡ BackgroundJobStatus.completed) × (a.status ≡ ErrorAnalysisStatus.completed))
    ⊎ ((job.status ≡ BackgroundJobStatus.failed) × (a.status ≡ ErrorAnalysisStatus.failed))

-- What is committed when the task has run.
abbrev pub HasCommitted :
    {env : Env}
    → Text
    → ℕ
    → BackgroundJobType
    → World env
    → Result AnalysisTaskResult × World env
    → Type 0
HasCommitted id analysis_id job_type w (answer, w') =
    (job : BackgroundJob) × (a : ErrorAnalysis) × (answer ≡ ok (ran id))
    × (find_first (has_job_id id) w'.committed.background_jobs ≡ some job)
    × (find_first (has_analysis_id analysis_id) w'.committed.error_analyses ≡ some a)
    × HasEnded job a
    × (job.processed_items ≡ 1)
    × (w'.active_decrements ≡ bump job_type w.active_decrements)

module _ {env : Env} where
  -- The end of the task, behind an action that has settled the rows.
  finish_analysis-commits :
      {js : BackgroundJobStatus} {status : ErrorAnalysisStatus} (m : Action env BackgroundJob)
      (job : BackgroundJob) (latest : ErrorAnalysis) (w w1 : World env)
      → ((j : BackgroundJob) (a : ErrorAnalysis) → j.status ≡ js → a.status ≡ status → HasEnded j a)
      → w1.active_decrements ≡ w.active_decrements
      → Settles js status job latest w1 (m w)
      → HasCommitted job.id latest.id job.job_type w ((m >>= finish_analysis) w)
  unfolding finish_analysis decrement_active_background_jobs
  finish_analysis-commits m job latest w w1 ends same settled =
      let (j, a, answer, tracked, id, type, status, processed, stored, a_status, counted) =
        settled in
      let runs : (m >>= finish_analysis) w ≡ finish_analysis j (m w).1 =
        bind-ok m finish_analysis w (ap (λ r. (r, (m w).1)) answer) in
      rw runs (
        j,
        a,
        ap (λ i. ok (ran i)) id,
        subst (λ i. find_first (has_job_id i) (m w).1.working.background_jobs ≡ some j) id tracked,
        stored,
        ends j a status a_status,
        processed,
        rw (counted, type, same) refl,
      )

module _ (env : Env) where
  abbrev asking : ErrorGroup → List Log → Action env AiAnalysisResult
  asking group logs =
      let prompts = build_analysis_prompts env group logs in
      analyze_error_group env prompts.0 prompts.1

  analyze-settled :
      (job : BackgroundJob) (group : ErrorGroup) (logs : List Log) (latest : ErrorAnalysis)
      (w : World env) (r : Result AiAnalysisResult) (w1 : World env)
      → IsTracked job w
      → IsStored latest w
      → asking group logs w ≡ (r, w1)
      → w1.working ≡ w.working
      → w1.active_decrements ≡ w.active_decrements
      → HasCommitted job.id latest.id job.job_type w (analyze env job group logs latest w)
  unfolding analyze
  analyze-settled job group logs latest w (ok result) w1 tracked stored answered same counted =
      let asks = asking group logs in
      let records = record_answer {env = env} job latest (length logs) in
      let handler : Error → Action env BackgroundJob = λ e. record_failure job latest in
      let settled =
        record_answer-Settles job latest (length logs) result w1 (rw same tracked)
          (rw same stored) in
      let recorded : records result w1 ≡ (ok settled.0, (records result w1).1) =
        ap (λ r. (r, (records result w1).1)) settled.2 in
      let caught : catch (asks >>= records) handler w ≡ records result w1 =
        catch-ok (asks >>= records) handler w (bind-ok asks records w answered ∙ recorded)
        ∙ sym recorded in
      finish_analysis-commits (catch (asks >>= records) handler) job latest w w1
        (λ j a s t. inl (s, t)) counted
        (subst (Settles BackgroundJobStatus.completed ErrorAnalysisStatus.completed job latest w1)
          (sym caught) settled)
  analyze-settled job group logs latest w (err e) w1 tracked stored answered same counted =
      let asks = asking group logs in
      let records = record_answer {env = env} job latest (length logs) in
      let handler : Error → Action env BackgroundJob = λ e. record_failure job latest in
      let settled = record_failure-Settles job latest w1 (rw same tracked) (rw same stored) in
      let caught : catch (asks >>= records) handler w ≡ record_failure job latest w1 =
        catch-err (asks >>= records) handler w (bind-err asks records w answered) in
      finish_analysis-commits (catch (asks >>= records) handler) job latest w w1
        (λ j a s t. inr (s, t)) counted
        (subst (Settles BackgroundJobStatus.failed ErrorAnalysisStatus.failed job latest w1)
          (sym caught) settled)

  analyze_again-runs :
      (job : BackgroundJob) (group : ErrorGroup) (latest : ErrorAnalysis) (g : ℕ) (w : World env)
      → IsTracked job w
      → job.payload.group_id ≡ some g
      → find_first (λ x. same_id x.id (pos g)) w.working.error_groups ≡ some group
      → first_of (for_group (pos group.id) w.working.error_analyses) ≡ some latest
      → analyze_again env job.id w ≡ analyze env job group (log_samples g w.working.logs) latest w
  unfolding analyze_again get_by_id group_repo.get_by_id get_latest_for_group
  analyze_again-runs job group latest g w tracked payload found newest = ground arith

  analyze_again-commits :
      (job : BackgroundJob) (group : ErrorGroup) (latest : ErrorAnalysis) (g : ℕ) (w : World env)
      → IsTracked job w
      → job.payload.group_id ≡ some g
      → find_first (λ x. same_id x.id (pos g)) w.working.error_groups ≡ some group
      → first_of (for_group (pos group.id) w.working.error_analyses) ≡ some latest
      → IsStored latest w
      → HasCommitted job.id latest.id job.job_type w (analyze_again env job.id w)
  analyze_again-commits job group latest g w tracked payload found newest stored =
      let logs = log_samples g w.working.logs in
      let prompts = build_analysis_prompts env group logs in
      let outcome = asking group logs w in
      let (same, counted) = analyze_error_group-keeps env prompts.0 prompts.1 w in
      rw (analyze_again-runs job group latest g w tracked payload found newest) (
        analyze-settled job group logs latest w outcome.0 outcome.1 tracked stored refl same
          counted)

  -- The state in which the analysis begins: it is stored as pending, and committed.
  abbrev begun : ℕ → ℕ → World env → World env
  begun g u w = (commit {env = env} (create_pending_analysis {env = env} g u w).1).1

  run_analysis-starts :
      (id : Text) (task : Option Text) (job : BackgroundJob) (w : World env)
      {started : BackgroundJob} {group : ErrorGroup} {g u : ℕ}
      → (mark_running job task w).0 ≡ ok started
      → started.payload.group_id ≡ some g
      → started.payload.requested_by ≡ some u
      → find_first (λ x. same_id x.id (pos g)) (mark_running job task w).1.working.error_groups
        ≡ some group
      → run_analysis env id task job w
        ≡ analyze_again env id (begun g u (mark_running job task w).1)
  unfolding run_analysis group_repo.get_by_id create_pending_analysis
  run_analysis-starts id task job w marks group_id requested found = ground arith

  begun-commits :
      (job : BackgroundJob) (group : ErrorGroup) (g u : ℕ) (w : World env)
      → IsTracked job w
      → job.payload.group_id ≡ some g
      → find_first (λ x. same_id x.id (pos g)) w.working.error_groups ≡ some group
      → All (IsOlder w.transaction_time w.sequences.next_analysis) w.working.error_analyses
      → HasCommitted job.id w.sequences.next_analysis job.job_type w
          (analyze_again env job.id (begun g u w))
  unfolding create_pending_analysis
  begun-commits job group g u w tracked payload found older =
      let new : ErrorAnalysis = pending_analysis w.sequences.next_analysis w.transaction_time g u in
      let fits : same_id group.id (pos g) ≡ true =
        find_first_fits (λ x. same_id x.id (pos g)) w.working.error_groups found in
      let newest = for_group-newest g new w.working.error_analyses refl older in
      let same : group.id ≡ g = ground arith in
      analyze_again-commits job group new g (begun g u w) tracked payload found
        (rw (same, newest) refl) (stored-newest new w.working.error_analyses older)

  pub run_analysis-runs :
      (id : Text) (task : Option Text) (job : BackgroundJob) (w : World env)
      → find_first (has_job_id id) w.working.background_jobs ≡ some job
      → is_done job.status ≡ false
      → ((run_error_group_analysis env id task w).0 ≡ (run_analysis env id task job w).0)
        × ((run_error_group_analysis env id task w).1.committed
            ≡ (run_analysis env id task job w).1.committed)
        × ((run_error_group_analysis env id task w).1.active_decrements
            ≡ (run_analysis env id task job w).1.active_decrements)
  unfolding run_error_group_analysis run_analysis_with_session get_by_id
  run_analysis-runs id task job w found fresh = rw (found, fresh) (refl, refl, refl)

  -- A job that was not done, whose group exists, and that has no rival in its scope, ends: whatever the
  -- provider does, the job and the new analysis are committed as completed both or as failed both, one
  -- item is counted as processed, and the job leaves the gauge of active jobs. No analysis of the
  -- table is newer than the transaction or has an id that the sequence is still to give.
  pub run_error_group_analysis-ends :
      (id : Text) (task : Option Text) (job : BackgroundJob) (group : ErrorGroup) (g u : ℕ)
      (w : World env)
      → find_first (has_job_id id) w.working.background_jobs ≡ some job
      → is_done job.status ≡ false
      → find_first (is_rival job) w.working.background_jobs ≡ none
      → job.payload.group_id ≡ some g
      → job.payload.requested_by ≡ some u
      → find_first (λ x. same_id x.id (pos g)) w.working.error_groups ≡ some group
      → All (IsOlder w.transaction_time w.sequences.next_analysis) w.working.error_analyses
      → HasCommitted id w.sequences.next_analysis job.job_type w
          (run_error_group_analysis env id task w)
  run_error_group_analysis-ends id task job group g u w found fresh free group_id requested there
        older =
      let its_id : job.id ≡ id = text_eq→eq job.id id (find_first_fits (has_job_id id) _ found) in
      let tracked : IsTracked job w =
        subst (λ i. find_first (has_job_id i) w.working.background_jobs ≡ some job) (sym its_id)
          found in
      let (
        started, marks, tracked1, id1, payload1, type1, analyses1, groups1, time1, sequences1,
        counted1,
      ) =
        mark_running-only env job task w free tracked in
      let w1 : World env = (mark_running job task w).1 in
      let there1 : find_first (λ x. same_id x.id (pos g)) w1.working.error_groups ≡ some group =
        rw groups1 there in
      let starts =
        run_analysis-starts id task job w marks (ap (λ p. p.group_id) payload1 ∙ group_id)
          (ap (λ p. p.requested_by) payload1 ∙ requested) there1 in
      let ends =
        begun-commits started group g u w1 tracked1 (ap (λ p. p.group_id) payload1 ∙ group_id)
          there1 (rw (time1, sequences1, analyses1) older) in
      let (answer, committed, counted) = run_analysis-runs id task job w found fresh in
      let started_id : started.id ≡ id = id1 ∙ its_id in
      let at_id =
        subst
          (λ i.
            HasCommitted i w.sequences.next_analysis started.job_type w1
              (analyze_again env i (begun g u w1)))
          started_id
          (subst
            (λ n.
              HasCommitted started.id n started.job_type w1
                (analyze_again env started.id (begun g u w1)))
            (ap (λ q. q.next_analysis) sequences1) ends) in
      let (job', a, r, row, stored, ended, processed, decrements) = at_id in
      (
        job',
        a,
        rw (answer, starts) r,
        rw (committed, starts) row,
        rw (committed, starts) stored,
        ended,
        processed,
        counted
            ∙ ap (λ o. o.1.active_decrements) starts
            ∙ decrements
            ∙ ap (λ t. bump t w1.active_decrements) type1
            ∙ ap (bump job.job_type) counted1,
      )
