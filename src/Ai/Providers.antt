-- ===== src/Ai/Providers.antt =====
-- app/integrations/ai: the two providers, and app/workers/tasks/analysis_tasks.py's choice of one.
use loglens_api.Base.{
  ℕ, Bool, true, false, ◌||◌, ◌&&◌, Option, none, some, [], ◌∷◌, ◌++◌, ◌==◌, if◌then◌else◌,
}
use loglens_api.Text.{Text, codes, lower}
use loglens_api.Models.{Instant, AiAnalysisResult}
use loglens_api.Models.Enums.{AnalysisPriority}
use loglens_api.Errors.{Error, AppError}
use loglens_api.Effect.{
  Env, Action, pure, raise, or_raise, ◌>>=◌, utc_now, draw, AiProvider, ChatReply, Content,
}

unfoldable pub starts_with : Text → Text → Bool
starts_with [] t = true
starts_with (c ∷ s) [] = false
starts_with (c ∷ s) (d ∷ t) = c == d && starts_with s t

-- `s in text`
unfoldable pub contains : Text → Text → Bool
unfolding starts_with
contains s [] = starts_with s []
contains s (c ∷ t) = starts_with s (c ∷ t) || contains s t

-- `text.rstrip("/")`
abbrev pub keep_before : ℕ → Text → Text
keep_before c [] = if c == b'/' then [] else c ∷ []
keep_before c (d ∷ s) = c ∷ d ∷ s

unfoldable pub rstrip_slash : Text → Text
rstrip_slash [] = []
rstrip_slash (c ∷ s) = keep_before c (rstrip_slash s)

-- MockAIProvider's answer; the confidence is in thousandths.
unfoldable pub mock_result : Bool → Instant → AiAnalysisResult
mock_result about_database now = record {
  summary = codes "Likely repeated operational failure pattern in sampled logs.";
  likely_root_cause = codes "Unhandled exception path repeatedly triggered under load.";
  suggested_fix = codes "Add defensive validation and broaden exception handling with retries.";
  confidence = if about_database then 820 else 660;
  affected_component = if about_database then codes "database" else codes "unknown";
  recommended_priority = AnalysisPriority.medium;
  reasoning_summary =
      codes "The sampled logs include repeated exception signatures and correlated timestamps.";
  generated_at = now;
  provider = codes "mock";
  model = codes "mock-gpt";
  latency_ms = 5;
}

abbrev pub unavailable : Text → Error
unavailable m = Error.app_error (AppError.service_unavailable m)

-- A setting that is there and not empty.
abbrev pub configured : Option Text → Option Text
configured none = none
configured (some []) = none
configured (some (c ∷ s)) = some (c ∷ s)

module _ {env : Env} where
  unfoldable pub mock_analyze : Text → Action env AiAnalysisResult
  mock_analyze user_prompt = do
    now ← utc_now
    pure (mock_result (contains (codes "database") (lower user_prompt)) now)

module _ (env : Env) where
  open env use {
    settings, Json, chat_completion, elapsed_ms, content_of, json_loads, set_defaults,
    validate_analysis,
  }

  -- `response.json()` lies outside of every `try`.
  abbrev pub body_of : ChatReply Json → Action env Json
  body_of ChatReply.timed_out = raise (unavailable (codes "AI analysis timed out."))
  body_of ChatReply.http_failed = raise (unavailable (codes "AI analysis request failed."))
  body_of ChatReply.not_json = raise Error.value_error
  body_of (ChatReply.answered body) = pure body

  abbrev pub malformed_output : Error
  malformed_output = unavailable (codes "AI provider returned malformed output.")

  abbrev pub read_content : Content → Action env Json
  read_content Content.no_choices = or_raise (json_loads []) malformed_output
  read_content Content.malformed = raise malformed_output
  read_content Content.no_object = raise Error.attribute_error
  read_content (Content.content_text t) = or_raise (json_loads t) malformed_output

  unfoldable pub ask : Text → Text → Text → Text → Action env AiAnalysisResult
  ask api_key base_url system user = do
    n ← draw
    body ← body_of (
        chat_completion n (record {
          endpoint = rstrip_slash base_url ++ codes "/chat/completions";
          api_key = api_key;
          model = settings.ai_model;
          system_prompt = system;
          user_prompt = user;
        }))
    content ← read_content (content_of body)
    full ←
        or_raise (set_defaults (codes "openai_compatible") settings.ai_model (elapsed_ms n) content)
          Error.attribute_error
    or_raise (validate_analysis full) Error.validation_error

  abbrev pub ask_configured : Option Text → Option Text → Text → Text → Action env AiAnalysisResult
  ask_configured (some api_key) (some base_url) system user = ask api_key base_url system user
  ask_configured (some api_key) none system user =
      raise (unavailable (codes "AI provider is not configured."))
  ask_configured none base_url system user =
      raise (unavailable (codes "AI provider is not configured."))

  unfoldable pub openai_analyze : Text → Text → Action env AiAnalysisResult
  openai_analyze system user =
      ask_configured (configured settings.ai_openai_api_key)
        (configured settings.ai_openai_base_url) system user

  abbrev pub analyze_with : AiProvider → Text → Text → Action env AiAnalysisResult
  analyze_with AiProvider.openai_compatible system user = openai_analyze system user
  analyze_with AiProvider.mock system user = mock_analyze user

  -- `_build_provider()`, then `analyze_error_group`.
  unfoldable pub analyze_error_group : Text → Text → Action env AiAnalysisResult
  analyze_error_group system user = analyze_with settings.ai_provider system user
