-- ===== src/System/Analysis.antt =====
-- The task that analyses a group keeps the tables sound.
use loglens_api.Base.{ℕ, refl, Option, none, some, List, inl, inr, Bool-cases, Option-cases}
use loglens_api.Text.{Text}
use loglens_api.Table.{find_first}
use loglens_api.Models.{Instant, BackgroundJob, ErrorAnalysis, ErrorGroup, Log, AiAnalysisResult}
use loglens_api.Models.Enums.{BackgroundJobStatus}
use loglens_api.Effect.{Env, AiProvider, ChatReply, Content}
use loglens_api.Effect.Keeps.{Keeps, Keeps-bind, Keeps-after}
use loglens_api.Repositories.Analyses.{save_analysis}
use loglens_api.Repositories.Jobs.{
  mark_completed, update_progress, has_job_id, mark_running, get_by_id,
}
use loglens_api.Ai.Providers.{
  mock_analyze, body_of, read_content, ask, ask_configured, openai_analyze, analyze_with,
  analyze_error_group,
}
use loglens_api.Workers.Bulk.{is_done}
use loglens_api.Workers.Analysis as Analysis
use loglens_api.Workers.Analysis.{
  completed_analysis, failed_analysis, record_answer, record_failure, finish_analysis, analyze,
  analyze_again, start_found, run_analysis, run_analysis_with_session, run_error_group_analysis,
}
use loglens_api.System.Sound.{IsSound}
use loglens_api.System.Changes.{create_pending_analysis-IsSound, save_analysis-IsSound}
use loglens_api.System.JobActions.{
  update_progress-IsSound, mark_completed-IsSound, mark_running-IsSound,
}
use loglens_api.System.Steps.{step_rules}
use loglens_api.System.Tasks.{task_rules, FromRow, own_row}

module _ (env : Env) where
  body_of-IsSound : (r : ChatReply env.Json) → Keeps IsSound (body_of env r)
  body_of-IsSound ChatReply.timed_out = search step_rules
  body_of-IsSound ChatReply.http_failed = search step_rules
  body_of-IsSound ChatReply.not_json = search step_rules
  body_of-IsSound (ChatReply.answered body) = search step_rules

  read_content-IsSound : (c : Content) → Keeps IsSound (read_content env c)
  read_content-IsSound Content.no_choices = search step_rules
  read_content-IsSound Content.malformed = search step_rules
  read_content-IsSound Content.no_object = search step_rules
  read_content-IsSound (Content.content_text t) = search step_rules

  ask-IsSound : (key url system user : Text) → Keeps IsSound (ask env key url system user)
  unfolding ask
  ask-IsSound key url system user =
      search (step_rules, body_of-IsSound, read_content-IsSound) depth 8

  ask_configured-IsSound :
      (key url : Option Text) (system user : Text)
      → Keeps IsSound (ask_configured env key url system user)
  ask_configured-IsSound (some key) (some url) system user = ask-IsSound key url system user
  ask_configured-IsSound (some key) none system user = search step_rules
  ask_configured-IsSound none url system user = search step_rules

  analyze_with-IsSound :
      (provider : AiProvider) (system user : Text)
      → Keeps IsSound (analyze_with env provider system user)
  unfolding openai_analyze mock_analyze
  analyze_with-IsSound AiProvider.openai_compatible system user =
      ask_configured-IsSound _ _ system user
  analyze_with-IsSound AiProvider.mock system user = search step_rules

  analyze_error_group-IsSound :
      (system user : Text) → Keeps IsSound (analyze_error_group env system user)
  unfolding analyze_error_group
  analyze_error_group-IsSound system user = analyze_with-IsSound _ system user

  record_answer-IsSound :
      (job : BackgroundJob) (latest : ErrorAnalysis) (n : ℕ) (result : AiAnalysisResult)
      → Keeps IsSound (record_answer {env = env} job latest n result)
  unfolding record_answer
  record_answer-IsSound job latest n result =
      search (task_rules, mark_completed_done, completed_saved) depth 8
    where
      mark_completed_done :
          (job : BackgroundJob)
          → Keeps IsSound (mark_completed {env = env} job BackgroundJobStatus.completed none)
      mark_completed_done job = mark_completed-IsSound job BackgroundJobStatus.completed none refl

      completed_saved :
          (now : Instant)
          → Keeps IsSound (save_analysis {env = env} (completed_analysis result n now) latest)
      completed_saved now =
          save_analysis-IsSound (completed_analysis result n now) latest (λ a. refl)

  record_failure-IsSound :
      (job : BackgroundJob) (latest : ErrorAnalysis)
      → Keeps IsSound (record_failure {env = env} job latest)
  unfolding record_failure
  record_failure-IsSound job latest =
      Keeps-bind (save_analysis failed_analysis latest) _
        (save_analysis-IsSound failed_analysis latest (λ a. refl))
        λ _.
          Keeps-bind (update_progress job 1 0 1 none none) _
            (update_progress-IsSound job 1 0 1 none none)
            λ job'. mark_completed-IsSound job' BackgroundJobStatus.failed _ refl

  finish_analysis-IsSound : (job : BackgroundJob) → Keeps IsSound (finish_analysis {env = env} job)
  unfolding finish_analysis
  finish_analysis-IsSound job = search task_rules

  analyze-IsSound :
      (job : BackgroundJob) (group : ErrorGroup) (logs : List Log) (latest : ErrorAnalysis)
      → Keeps IsSound (analyze env job group logs latest)
  unfolding analyze
  analyze-IsSound job group logs latest =
      search
        (
          task_rules, analyze_error_group-IsSound, record_answer-IsSound, record_failure-IsSound,
          finish_analysis-IsSound,
        )
        depth 8

  analyze_again-IsSound : (i : Text) → Keeps IsSound (analyze_again env i)
  unfolding analyze_again
  analyze_again-IsSound i = search (task_rules, analyze-IsSound) depth 12

  start_found-IsSound :
      (i : Text) (job : BackgroundJob) (group_id created_by : ℕ) (group : Option ErrorGroup)
      → Keeps IsSound (start_found env i job group_id created_by group)
  start_found-IsSound i job group_id created_by none = search task_rules
  start_found-IsSound i job group_id created_by (some group) =
      search (task_rules, create_pending_analysis-IsSound, analyze_again-IsSound)

  analysis_marked-IsSound :
      (i : Text) (job : BackgroundJob) → Keeps IsSound (Analysis.run_marked env i job)
  analysis_marked-IsSound i job = search (task_rules, start_found-IsSound) depth 8

  run_analysis-IsSound : (i : Text) (task : Option Text) → FromRow env (run_analysis env i task)
  unfolding run_analysis
  run_analysis-IsSound i task job w found h =
      Keeps-after (mark_running job task) (Analysis.run_marked env i) w
        (mark_running-IsSound job task w found h) (analysis_marked-IsSound i)

  pub run_analysis_with_session-IsSound :
      (i : Text) (task : Option Text) → Keeps IsSound (run_analysis_with_session env i task)
  unfolding run_analysis_with_session get_by_id
  run_analysis_with_session-IsSound i task = record {
    at = λ w h. elim (Option-cases (find_first (has_job_id i) w.working.background_jobs)) [
      | inl e ↦ rw e h
      | inr (job, e) ↦ elim (Bool-cases (is_done job.status)) [
        | inl ended ↦ rw (e, ended) h
        | inr fresh ↦
            rw (e, fresh)
              (run_analysis-IsSound i task job w (own_row env i w.working.background_jobs e) h)
      ]
    ];
  }
