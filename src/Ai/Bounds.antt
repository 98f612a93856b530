-- ===== src/Ai/Bounds.antt =====
-- How long a prompt can be.
use loglens_api.Base.{ℕ, ◌≤◌, arith, length, List, take, length-append, length-take}
use loglens_api.Text.{Text}
use loglens_api.Models.{ErrorGroup, Log}
use loglens_api.Effect.{Env}
use loglens_api.Ai.Prompt.{
  truncate, kept_chars, truncated_mark, full_prompt, build_analysis_prompts,
}

pub length-truncate : (n : ℕ) (t : Text) → 15 ≤ n → length (truncate n t) ≤ n
unfolding truncate
length-truncate n t room = ground (
  arith,
  length-append (take (kept_chars n (length t)) t) truncated_mark,
  length-take (kept_chars n (length t)) t,
)

-- The user's prompt is no longer than the setting allows, if that leaves room for the mark.
pub build_analysis_prompts_bound :
    (env : Env) (group : ErrorGroup) (logs : List Log)
    → 15 ≤ env.settings.ai_max_input_chars
    → length (build_analysis_prompts env group logs).1 ≤ env.settings.ai_max_input_chars
unfolding build_analysis_prompts
build_analysis_prompts_bound env group logs room =
    length-truncate env.settings.ai_max_input_chars (full_prompt env group logs) room
