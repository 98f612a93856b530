-- ===== src/Config.antt =====
-- app/core/config.py: the validators of the settings. A rate is a number of millionths.
pub mod Secrets
use loglens_api.Base.{
  ℕ, ◌++◌, Bool, true, false, not, ◌&&◌, ◌||◌, Option, none, some, List, [], ◌∷◌, length, leb, ltb,
  ◌==◌, if◌then◌else◌,
}
use loglens_api.Text.{Text, codes, strip, text_eq}
use loglens_api.Text.Decimal.{ℤ, pos, negsuc}

pub data AppEnv : Type 0 where
  development staging production : AppEnv

-- A list of origins, or the string that names them.
pub data Origins : Type 0 where
  origin_list : List Text → Origins
  origin_string : Text → Origins

-- The fields that the validators read, as they are given.
pub record RawSettings : Type 0 where
  pub app_env : AppEnv
  pub app_debug : Bool
  pub metrics_enabled : Bool
  pub metrics_path : Text
  pub otel_sample_ratio : ℤ
  pub sentry_enabled : Bool
  pub sentry_dsn : Option Text
  pub sentry_traces_sample_rate : ℤ
  pub cors_allow_origins : Origins
  pub jwt_secret_key : Text
  pub jwt_access_secret_key : Option Text
  pub jwt_refresh_secret_key : Option Text

-- The same fields, validated.
pub record ValidSettings : Type 0 where
  pub raw : RawSettings
  pub cors_allow_origins : List Text

-- What was read of an item goes before the items behind it.
abbrev pub cons_item : ℕ → List Text → List Text
cons_item c [] = (c ∷ []) ∷ []
cons_item c (item ∷ items) = (c ∷ item) ∷ items

-- `value.split(separator)`
unfoldable pub split : ℕ → Text → List Text
split separator [] = [] ∷ []
split separator (c ∷ s) =
    let rest = split separator s in if c == separator then [] ∷ rest else cons_item c rest

abbrev pub keep_item : Text → List Text → List Text
keep_item [] rest = rest
keep_item (c ∷ s) rest = (c ∷ s) ∷ rest

-- `[item.strip() for item in items if item.strip()]`
unfoldable pub stripped_items : List Text → List Text
stripped_items [] = []
stripped_items (item ∷ items) = keep_item (strip item) (stripped_items items)

unfoldable pub parse_cors_allow_origins : Origins → List Text
unfolding split stripped_items
parse_cors_allow_origins (origin_list origins) = origins
parse_cors_allow_origins (origin_string value) = stripped_items (split b',' value)

unfoldable pub validate_jwt_secret_key : Text → Bool
validate_jwt_secret_key value = not (ltb (length value) 32)

unfoldable pub validate_optional_jwt_secret_key : Option Text → Bool
validate_optional_jwt_secret_key none = true
validate_optional_jwt_secret_key (some value) = not (ltb (length value) 32)

unfoldable pub validate_sample_rate : ℤ → Bool
validate_sample_rate (pos n) = leb n 1000000
validate_sample_rate (negsuc n) = false

abbrev pub default_secret : Text
default_secret = codes "dev-only-change-this-jwt-secret-key-to-a-strong-value"

-- `value.startswith("/")`
abbrev pub starts_with_slash : Text → Bool
starts_with_slash [] = false
starts_with_slash (c ∷ s) = c == b'/'

-- `not value`
abbrev pub is_empty : Option Text → Bool
is_empty none = true
is_empty (some []) = true
is_empty (some (c ∷ s)) = false

abbrev pub is_production : AppEnv → Bool
is_production AppEnv.production = true
is_production _ = false

-- No condition of `_validate_production_settings` raises.
unfoldable pub validate_production_settings : RawSettings → Bool
validate_production_settings s =
    not (s.metrics_enabled && not (starts_with_slash s.metrics_path))
    && not (s.sentry_enabled && is_empty s.sentry_dsn)
    && not (is_production s.app_env && s.app_debug)
    && not (is_production s.app_env && text_eq s.jwt_secret_key default_secret)

-- The field validators; pydantic runs them all before the model's.
unfoldable pub validate_fields : RawSettings → Bool
validate_fields s =
    validate_jwt_secret_key s.jwt_secret_key
    && validate_optional_jwt_secret_key s.jwt_access_secret_key
    && validate_optional_jwt_secret_key s.jwt_refresh_secret_key
    && validate_sample_rate s.otel_sample_ratio
    && validate_sample_rate s.sentry_traces_sample_rate

-- `Settings(...)`; `none` is a `ValidationError`.
unfoldable pub make_settings : RawSettings → Option ValidSettings
make_settings s =
    if validate_fields s && validate_production_settings s
    then some
        (record { raw = s; cors_allow_origins = parse_cors_allow_origins s.cors_allow_origins })
    else none
