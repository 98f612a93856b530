-- ===== src/Workers/Analysis/Steps.antt =====
-- What the steps of the analysis task do to the job's row and to the analysis's.
use loglens_api.Base.{ℕ, ◌+◌, ◌≡◌, refl, ◌∙◌, Bool, Option, none, some, arith, ◌==◌}
use loglens_api.Text.{Text, codes}
use loglens_api.Table.{find_first}
use loglens_api.Table.Laws.{find_first-update_where}
use loglens_api.Models.{BackgroundJob, ErrorAnalysis, AiAnalysisResult}
use loglens_api.Models.Enums.{BackgroundJobStatus, ErrorAnalysisStatus}
use loglens_api.Effect.{Env, World, Action, Result, ok, ◌>>=◌, ◌>>◌}
use loglens_api.Repositories.Jobs.{
  save_job, update_progress, mark_completed, progressed_job, finished_job,
}
use loglens_api.Repositories.Analyses.{save_analysis}
use loglens_api.Ai.Providers.{analyze_error_group, openai_analyze, mock_analyze, ask}
use loglens_api.Workers.BulkLaws.{IsTracked, save_job-IsTracked}
use loglens_api.Workers.Analysis.{
  completed_analysis, failed_analysis, record_answer, record_failure,
}

abbrev pub has_analysis_id : ℕ → ErrorAnalysis → Bool
has_analysis_id id a = a.id == id

module _ {env : Env} where
  -- The row of the analysis is the object that the worker holds.
  abbrev pub IsStored : ErrorAnalysis → World env → Type 0
  IsStored a w = find_first (has_analysis_id a.id) w.working.error_analyses ≡ some a

  save_analysis-stores :
      (change : ErrorAnalysis → ErrorAnalysis) (a : ErrorAnalysis) (w : World env)
      → ((x : ErrorAnalysis) → (change x).id ≡ x.id)
      → IsStored a w
      → find_first (has_analysis_id a.id) (save_analysis change a w).1.working.error_analyses
        ≡ some (record (change a) { updated_at = w.transaction_time })
  unfolding save_analysis
  save_analysis-stores change a w keeps stored =
      let stamped : ErrorAnalysis → ErrorAnalysis =
        λ x. record (change x) { updated_at = w.transaction_time } in
      let found =
        find_first-update_where (has_analysis_id a.id) (has_analysis_id a.id) stamped
          w.working.error_analyses (λ x. ground (arith, keeps x)) in
      found ∙ rw stored (ground arith)

  -- The job has ended with one item, the analysis with it, and nothing was counted yet.
  abbrev pub Settles :
      BackgroundJobStatus
      → ErrorAnalysisStatus
      → BackgroundJob
      → ErrorAnalysis
      → World env
      → Result BackgroundJob × World env
      → Type 0
  Settles job_status status job latest w (answer, w') =
      (job' : BackgroundJob) × (a : ErrorAnalysis) × (answer ≡ ok job')
      × IsTracked job' w'
      × (job'.id ≡ job.id)
      × (job'.job_type ≡ job.job_type)
      × (job'.status ≡ job_status)
      × (job'.processed_items ≡ 1)
      × (find_first (has_analysis_id latest.id) w'.working.error_analyses ≡ some a)
      × (a.status ≡ status)
      × (w'.active_decrements ≡ w.active_decrements)

  -- What both ends of the `try` do.
  abbrev settle :
      (ErrorAnalysis → ErrorAnalysis)
      → BackgroundJobStatus
      → ℕ
      → ℕ
      → Option Text
      → BackgroundJob
      → ErrorAnalysis
      → Action env BackgroundJob
  settle change job_status success failure summary job latest = do
    save_analysis change latest
    job ← update_progress job 1 success failure none none
    mark_completed job job_status summary

  settle-Settles :
      (change : ErrorAnalysis → ErrorAnalysis) (job_status : BackgroundJobStatus) (s f : ℕ)
      (summary : Option Text) (job : BackgroundJob) (latest : ErrorAnalysis) (w : World env)
      {status : ErrorAnalysisStatus}
      → ((x : ErrorAnalysis) → (change x).id ≡ x.id)
      → ((x : ErrorAnalysis) → (change x).status ≡ status)
      → IsTracked job w
      → IsStored latest w
      → Settles job_status status job latest w (settle change job_status s f summary job latest w)
  unfolding update_progress mark_completed save_job save_analysis
  settle-Settles change job_status s f summary job latest w keeps sets tracked stored =
      let w1 : World env = (save_analysis change latest w).1 in
      let (_, tracked1, _) =
        save_job-IsTracked (progressed_job 1 s f none none) job w1 (λ j. refl) tracked in
      let w2 : World env = (update_progress job 1 s f none none w1).1 in
      let job1 : BackgroundJob = record (progressed_job 1 s f none none job) {
        updated_at = w.transaction_time;
      } in
      let w3 : World env = record w2 { readings = w2.readings + 1 } in
      let (answer, tracked2, _) =
        save_job-IsTracked (finished_job job_status (env.clock w2.readings) summary) job1 w3
          (λ j. refl) tracked1 in
      (
        _,
        _,
        answer,
        tracked2,
        refl,
        refl,
        refl,
        refl,
        save_analysis-stores change latest w keeps stored,
        sets latest,
        refl,
      )

  pub record_answer-Settles :
      (job : BackgroundJob) (latest : ErrorAnalysis) (n : ℕ) (result : AiAnalysisResult)
      (w : World env)
      → IsTracked job w
      → IsStored latest w
      → Settles BackgroundJobStatus.completed ErrorAnalysisStatus.completed job latest w
          (record_answer job latest n result w)
  unfolding record_answer
  record_answer-Settles job latest n result w tracked stored =
      settle-Settles (completed_analysis result n (env.clock w.readings))
        BackgroundJobStatus.completed 1 0 none job latest (record w { readings = w.readings + 1 })
        (λ x. refl) (λ x. refl) tracked stored

  pub record_failure-Settles :
      (job : BackgroundJob) (latest : ErrorAnalysis) (w : World env)
      → IsTracked job w
      → IsStored latest w
      → Settles BackgroundJobStatus.failed ErrorAnalysisStatus.failed job latest w
          (record_failure job latest w)
  unfolding record_failure
  record_failure-Settles job latest w tracked stored =
      settle-Settles failed_analysis BackgroundJobStatus.failed 0 1 (some (codes "Analysis failed"))
        job latest w (λ x. refl) (λ x. refl) tracked stored

module _ (env : Env) where
  -- Asking a provider changes no table and no counter.
  pub analyze_error_group-keeps :
      (system user : Text) (w : World env)
      → let (_, w') = analyze_error_group env system user w in
        (w'.working ≡ w.working) × (w'.active_decrements ≡ w.active_decrements)
  unfolding analyze_error_group openai_analyze mock_analyze ask
  analyze_error_group-keeps system user w = (ground arith, ground arith)
