-- ===== src/Effect/Externals.antt =====
-- What the program takes from other packages, as a record of functions: argon2, jose, hashlib,
-- uuid, the Redis client, the clock, the regular expressions, `str` of an exception, JSON,
-- HTTP, pydantic's validation, the probes of the database and of Redis, and SQL's ILIKE.
-- Nothing is assumed of them here.
use loglens_api.Base.{ℕ, Bool, Option, List}
use loglens_api.Text.{Text}
use loglens_api.Models.{Instant, LogIngestRequest, AiAnalysisResult, AnalyticsSummary}
use loglens_api.Errors.{Error}

pub data AiProvider : Type 0 where
  mock openai_compatible : AiProvider

-- The fields of app/core/config.py's `Settings` that the modelled code reads.
pub record Settings : Type 0 where
  pub jwt_secret_key : Text
  pub jwt_access_secret_key : Option Text
  pub jwt_refresh_secret_key : Option Text
  pub jwt_algorithm : Text
  pub jwt_access_token_expire_minutes : ℕ
  pub jwt_refresh_token_expire_minutes : ℕ
  pub login_rate_limit_attempts : ℕ
  pub login_rate_limit_window_seconds : ℕ
  pub bulk_idempotency_ttl_seconds : ℕ
  pub ai_provider : AiProvider
  pub ai_model : Text
  pub ai_openai_base_url : Option Text
  pub ai_openai_api_key : Option Text
  pub ai_max_input_chars : ℕ
  pub ai_max_stack_trace_chars : ℕ
  pub log_retention_days : ℕ
  pub cleanup_batch_size : ℕ
  pub cleanup_dry_run_default : Bool
  pub analytics_cache_ttl_seconds : ℕ
  pub celery_task_always_eager : Bool
  pub admin_bootstrap_email : Option Text
  pub admin_bootstrap_password : Option Text

-- A value of a decoded JWT: a string, or something that `isinstance(_, str)` rejects.
pub data Claim : Type 0 where
  str_claim : Text → Claim
  other_claim : Claim

-- The payload of a JWT by the keys that the program uses; `none` is a missing key.
pub record Claims : Type 0 where
  pub sub : Option Claim
  pub kind : Option Claim
  pub jti : Option Claim
  pub family_id : Option Claim
  pub exp : Option Instant

-- `PasswordHasher.verify`: it returns, raises `VerifyMismatchError`, or raises something else.
pub data Verdict : Type 0 where
  verified mismatch invalid_hash : Verdict

-- A Redis command gives an answer or raises `RedisError`.
pub data Reply {ℓ} (A : Type ℓ) : Type ℓ where
  reply : A → Reply A
  redis_error : Reply A

-- `str | bytes`; for bytes, the text that `decode("utf-8")` gives.
pub data Raw : Type 0 where
  str_value : Text → Raw
  bytes_value : Text → Raw

-- The compiled patterns of app/services/fingerprint.py, with the replacement that each `sub` gets.
pub data Pattern : Type 0 where
  uuid iso_timestamp iso_date email ip memory_address request_id label_number hex long_number :
      Pattern
  stack_line colon_number : Pattern

-- What the provider of an analysis is sent.
pub record ChatRequest : Type 0 where
  pub endpoint : Text
  pub api_key : Text
  pub model : Text
  pub system_prompt : Text
  pub user_prompt : Text

-- `client.post` and `raise_for_status`: `httpx.TimeoutException`, another `httpx.HTTPError`, or an
-- answer whose body may fail to be JSON.
pub data ChatReply {ℓ} (J : Type ℓ) : Type ℓ where
  timed_out : ChatReply J
  http_failed : ChatReply J
  not_json : ChatReply J
  answered : J → ChatReply J

-- `body["choices"][0]["message"]["content"]`: there is no list of choices, a `KeyError`, `IndexError`
-- or `TypeError` (also that of reading the content as JSON, if it is no string), an
-- `AttributeError` for a body that is no object, or the text.
pub data Content : Type 0 where
  no_choices malformed no_object : Content
  content_text : Text → Content

pub record Env : Type 1 where
  pub isoformat : Instant → Text
  pub Json : Type 0
  pub chat_completion : ℕ → ChatRequest → ChatReply Json
  pub elapsed_ms : ℕ → ℕ
  pub content_of : Json → Content
  pub json_dumps_summary : AnalyticsSummary → Text
  pub load_summary : Text → Option AnalyticsSummary
  pub validate_login : Text → Text → Option (Text × Text)
  pub database_up : ℕ → Bool
  pub redis_up : ℕ → Bool
  pub json_loads : Text → Option Json
  pub set_defaults : Text → Text → ℕ → Json → Option Json
  pub validate_analysis : Json → Option AiAnalysisResult
  pub re_sub : Pattern → Text → Text
  pub error_text : Error → Text
  pub ilike : Text → Text → Bool
  pub json_dumps_logs : List LogIngestRequest → Text
  pub json_dumps_job : Text → Text → Text
  pub settings : Settings
  pub clock : ℕ → Instant
  pub uuid4 : ℕ → Text
  pub sha256 : Text → Text
  pub argon2_hash : ℕ → Text → Text
  pub argon2_verify : Text → Text → Verdict
  pub jwt_encode : Claims → Text → Text → Text
  pub jwt_decode : Instant → Text → Text → Text → Option Claims
  pub Redis : Type 0
  pub redis_get : Text → Redis → Reply (Option Raw) × Redis
  pub redis_incr : Text → Redis → Reply ℕ × Redis
  pub redis_expire : Text → ℕ → Redis → Reply Bool × Redis
  pub redis_delete : List Text → Redis → Reply ℕ × Redis
  pub redis_scan : Text → Redis → Reply (List Raw) × Redis
  pub redis_set : Text → Text → ℕ → Redis → Reply (Unit {0}) × Redis
