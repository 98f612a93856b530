-- ===== src/Tests/Sample.antt =====
-- A concrete environment: a clock that ticks, identity hashes, one known refresh token, and a Redis
-- that holds counters in a list.
use loglens_api.Base.{
  ℕ, ◌+◌, ◌≡◌, refl, true, false, [], ◌∷◌, Option, none, some, List, arith, if◌then◌else◌,
}
use loglens_api.Text.{Text, codes, text_eq}
use loglens_api.Text.Laws.{text_eq_iff}
use loglens_api.Clock.{aware}
use loglens_api.Models.{User, RefreshToken, ErrorGroup}
use loglens_api.Models.Enums.{UserRole, LogEnvironment, ErrorGroupStatus, ErrorGroupSeverity}
use loglens_api.Effect.{
  Env, Settings, Claims, str_claim, Db, World, reply, verified, mismatch, AiProvider, ChatReply,
  Content,
}
use loglens_api.RateLimit.{Limiter}
use loglens_api.RateLimit.Laws.{Counters, count_of, shown}

abbrev pub settings : Settings
settings = record {
  jwt_secret_key = codes "shared";
  jwt_access_secret_key = none;
  jwt_refresh_secret_key = none;
  jwt_algorithm = codes "HS256";
  jwt_access_token_expire_minutes = 15;
  jwt_refresh_token_expire_minutes = 10080;
  login_rate_limit_attempts = 5;
  login_rate_limit_window_seconds = 60;
  bulk_idempotency_ttl_seconds = 86400;
  ai_provider = AiProvider.mock;
  ai_model = codes "mock-gpt";
  ai_openai_base_url = none;
  ai_openai_api_key = none;
  ai_max_input_chars = 20000;
  ai_max_stack_trace_chars = 8000;
  log_retention_days = 30;
  cleanup_batch_size = 2;
  cleanup_dry_run_default = false;
  analytics_cache_ttl_seconds = 300;
  celery_task_always_eager = false;
  admin_bootstrap_email = some (codes "Root@B");
  admin_bootstrap_password = some (codes "pw");
}

abbrev pub lookup_counter : Text → List (Text × ℕ) → Option ℕ
lookup_counter k [] = none
lookup_counter k ((j, n) ∷ r) = if text_eq k j then some n else lookup_counter k r

abbrev pub remove_counter : Text → List (Text × ℕ) → List (Text × ℕ)
remove_counter k [] = []
remove_counter k ((j, n) ∷ r) =
    let rest = remove_counter k r in if text_eq j k then rest else (j, n) ∷ rest

-- The token "refresh-1" of user 1, in the family "f", and an access token of that user.
abbrev pub decode_sample : Text → Option Claims
decode_sample token =
    if text_eq token (codes "refresh-1")
    then some (record {
      sub = some (str_claim (codes "1"));
      kind = some (str_claim (codes "refresh"));
      jti = some (str_claim (codes "a"));
      family_id = some (str_claim (codes "f"));
      exp = some 900000;
    })
    else if text_eq token (codes "access-1")
    then some (record {
      sub = some (str_claim (codes "1"));
      kind = some (str_claim (codes "access"));
      jti = none;
      family_id = none;
      exp = some 900000;
    })
    else none

abbrev pub env : Env
env = record {
  isoformat = λ at. codes "2026-07-23T00:00:00+00:00";
  Json = Unit;
  chat_completion = λ n request. ChatReply.timed_out;
  elapsed_ms = λ n. 5;
  content_of = λ body. Content.no_choices;
  json_dumps_summary = λ s. [];
  load_summary = λ t. none;
  validate_login = λ email password. some (email, password);
  database_up = λ n. true;
  redis_up = λ n. true;
  json_loads = λ t. none;
  set_defaults = λ provider model latency_ms body. some body;
  validate_analysis = λ body. none;
  re_sub = λ p t. t;
  ilike = λ column pattern. true;
  error_text = λ e. codes "date value out of range";
  json_dumps_logs = λ logs. [];
  json_dumps_job = λ id hash. id;
  settings = settings;
  clock = λ n. 1000 + n;
  uuid4 = λ n. n ∷ [];
  sha256 = λ t. t;
  argon2_hash = λ salt password. password;
  argon2_verify = λ hash password. if text_eq hash password then verified else mismatch;
  jwt_encode = λ claims key algorithm. codes "jwt";
  jwt_decode = λ now token key algorithm. decode_sample token;
  Redis = List (Text × ℕ);
  redis_get = λ k r. (reply (shown (lookup_counter k r)), r);
  redis_incr = λ k r.
      (reply (count_of (lookup_counter k r) + 1), (k, count_of (lookup_counter k r) + 1) ∷ r);
  redis_expire = λ k seconds r. (reply true, r);
  redis_delete = λ ks r. (reply 1, elim ks [ [] ↦ r | k ∷ _ ↦ remove_counter k r ]);
  redis_scan = λ pattern r. (reply [], r);
  redis_set = λ k v seconds r. (reply tt, r);
}

pub lookup-remove :
    (k j : Text) (r : List (Text × ℕ))
    → lookup_counter j (remove_counter k r) ≡ (if text_eq j k then none else lookup_counter j r)
lookup-remove k j [] = ground arith
lookup-remove k j ((i, n) ∷ r) =
    ground (arith, text_eq_iff i k, text_eq_iff j i, text_eq_iff j k, lookup-remove k j r)

abbrev pub counters : Counters env
counters = record {
  view = λ r k. lookup_counter k r;
  get_lem = λ k r. refl;
  incr_lem = λ k r. ((k, count_of (lookup_counter k r) + 1) ∷ r, refl, λ j. refl);
  expire_lem = λ k seconds r. (true, r, refl, λ j. refl);
  delete_lem = λ k r. (1, remove_counter k r, refl, λ j. lookup-remove k j r);
}

abbrev pub ada : User
ada = record {
  id = 1;
  email = codes "ada@x.io";
  password_hash = codes "correct horse";
  role = UserRole.developer;
  is_active = true;
  created_at = 1;
  updated_at = 1;
}

-- An active token of ada's, one that was rotated away, and one of another user.
abbrev pub active_token : RefreshToken
active_token = record {
  id = 7;
  user_id = 1;
  jti_hash = codes "a";
  family_id = codes "f";
  replaced_by_jti_hash = none;
  created_at = 1;
  expires_at = aware 900000;
  revoked_at = none;
  reuse_detected_at = none;
}

abbrev pub spent_token : RefreshToken
spent_token = record active_token { replaced_by_jti_hash = some (codes "b"); revoked_at = some 5 }

abbrev pub child_token : RefreshToken
child_token = record active_token { id = 8; jti_hash = codes "b" }

abbrev pub other_token : RefreshToken
other_token = record active_token {
  id = 9;
  user_id = 2;
  jti_hash = codes "z";
  family_id = codes "g";
}

abbrev pub db : List RefreshToken → Db
db tokens = record {
  users = ada ∷ [];
  refresh_tokens = tokens;
  error_groups = [];
  logs = [];
  background_jobs = [];
  error_analyses = [];
}

abbrev pub world_in : (e : Env) → e.Redis → Db → World e
world_in e redis d = record {
  committed = d;
  working = d;
  sequences = record {
    next_user = 2;
    next_token = 10;
    next_group = 1;
    next_log = 1;
    next_analysis = 1;
  };
  transaction_time = 1000;
  redis = redis;
  readings = 0;
  draws = 200;
  jobs_created = λ t. 0;
  active_decrements = λ t. 0;
  queue = [];
}

abbrev pub world_of : Db → World env
world_of = world_in env []

abbrev pub limiter : Limiter
limiter = record { max_attempts = 5; window_seconds = 60; key_prefix = codes "auth:login_attempts" }

abbrev pub token : Text
token = codes "refresh-1"

abbrev pub host : Text
host = codes "10.0.0.1:ada@x.io"

abbrev pub outage : ErrorGroup
outage = record {
  id = 4;
  fingerprint = codes "f";
  title = codes "boom";
  service_name = codes "billing";
  environment = LogEnvironment.production;
  exception_type = none;
  first_seen = 1;
  last_seen = 2;
  occurrence_count = 3;
  status = ErrorGroupStatus.unresolved;
  severity = ErrorGroupSeverity.high;
  assigned_to = none;
  created_at = 1;
  updated_at = 2;
}
