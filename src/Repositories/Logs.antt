-- ===== src/Repositories/Logs.antt =====
-- app/repositories/log.py.
use loglens_api.Base.{
  ℕ, ◌+◌, Bool, true, false, ◌&&◌, ◌||◌, Option, none, some, List, ◌++◌, ◌==◌, leb,
}
use loglens_api.Text.{Text, codes, text_eq, strip}
use loglens_api.Text.Decimal.{ℤ}
use loglens_api.Table.{find_first, delete_where, insert_row}
use loglens_api.Models.{Instant, Log, ErrorGroup}
use loglens_api.Models.Enums.{LogEnvironment, LogLevel, environment_eq, level_eq}
use loglens_api.Effect.{Env, Action, pure, ◌>>=◌, ◌>>◌, query, write, next_id, transaction_now}
use loglens_api.Repositories.Users.{same_id}

-- The keyword arguments of `create_log`.
pub record LogValues : Type 0 where
  pub service_name : Text
  pub environment : LogEnvironment
  pub log_level : LogLevel
  pub message : Text
  pub normalized_message : Text
  pub exception_type : Option Text
  pub stack_trace : Option Text
  pub metadata : Text
  pub fingerprint : Option Text
  pub error_group_id : Option ℕ
  pub timestamp : Instant

abbrev pub new_log : ℕ → Instant → LogValues → Log
new_log id now v = record {
  id = id;
  service_name = v.service_name;
  environment = v.environment;
  log_level = v.log_level;
  message = v.message;
  normalized_message = v.normalized_message;
  exception_type = v.exception_type;
  stack_trace = v.stack_trace;
  metadata = v.metadata;
  fingerprint = v.fingerprint;
  error_group_id = v.error_group_id;
  timestamp = v.timestamp;
  created_at = now;
}

-- The filters of `build_query`; one that is not given holds of every row.
pub record LogFilter : Type 0 where
  pub service : Option Text
  pub environment : Option LogEnvironment
  pub level : Option LogLevel
  pub fingerprint : Option Text
  pub error_group_id : Option ℕ
  pub text : Option Text
  pub from_timestamp : Option Instant
  pub to_timestamp : Option Instant

abbrev pub given {ℓ} : {A : Type ℓ} → Option A → (A → Bool) → Bool
given none p = true
given (some a) p = p a

-- A nullable column: NULL fits no condition.
abbrev pub column {ℓ} : {A : Type ℓ} → Option A → (A → Bool) → Bool
column none p = false
column (some a) p = p a

-- `f"%{text.strip()}%"`
abbrev pub like_pattern : Text → Text
like_pattern text = codes "%" ++ (strip text ++ codes "%")

module _ (env : Env) where
  open env use {ilike}

  -- The row of the outer join.
  abbrev pub joined_group : List ErrorGroup → Log → Option ErrorGroup
  joined_group groups l = elim l.error_group_id [
    | none ↦ none
    | some id ↦ find_first (λ g. g.id == id) groups
  ]

  abbrev pub text_matches : List ErrorGroup → Log → Text → Bool
  text_matches groups l text =
      let pattern = like_pattern text in
      ilike l.message pattern
      || ilike l.normalized_message pattern
      || column l.stack_trace (λ c. ilike c pattern)
      || column l.fingerprint (λ c. ilike c pattern)
      || column (joined_group groups l) (λ g. ilike g.title pattern)
      || column (joined_group groups l) (λ g. ilike g.fingerprint pattern)

  unfoldable pub build_query : List ErrorGroup → LogFilter → Log → Bool
  build_query groups f l =
      given f.service (λ v. text_eq l.service_name v)
      && given f.environment (λ v. environment_eq l.environment v)
      && given f.level (λ v. level_eq l.log_level v)
      && given f.fingerprint (λ v. column l.fingerprint (λ c. text_eq c v))
      && given f.error_group_id (λ v. column l.error_group_id (λ c. c == v))
      && given f.from_timestamp (λ v. leb v l.timestamp)
      && given f.to_timestamp (λ v. leb l.timestamp v)
      && given f.text (λ v. text_matches groups l v)

module _ {env : Env} where
  unfoldable pub get_by_id : ℤ → Action env (Option Log)
  get_by_id log_id = query (λ d. find_first (λ l. same_id l.id log_id) d.logs)

  unfoldable pub create_log : LogValues → Action env Log
  create_log v = do
    id ← next_id (λ s. s.next_log) (λ s. record s { next_log = s.next_log + 1 })
    now ← transaction_now
    write (λ d. record d { logs = insert_row (new_log id now v) d.logs })
    pure (new_log id now v)

  unfoldable pub delete_log : Log → Action env (Unit {0})
  delete_log log = write (λ d. record d { logs = delete_where (λ l. l.id == log.id) d.logs })
