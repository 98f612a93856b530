-- ===== src/Tests/Settings.antt =====
-- Settings of production, accepted and refused.
use loglens_api.Base.{◌≤◌, ◌≡◌, refl, true, false, none, [], ◌∷◌, length}
use loglens_api.Text.{codes, text_eq, strip, is_space}
use loglens_api.Text.Decimal.{pos, negsuc}
use loglens_api.Effect.{Env}
use loglens_api.Security.{access_signing_key, refresh_signing_key}
use loglens_api.Config.{
  AppEnv, RawSettings, origin_string, default_secret, split, stripped_items,
  parse_cors_allow_origins, validate_jwt_secret_key, validate_optional_jwt_secret_key,
  validate_sample_rate, validate_production_settings, validate_fields, make_settings,
}
use loglens_api.Config.Secrets.{make_settings-signing_keys}
use loglens_api.Tests.Sample.{env}

abbrev given : RawSettings
given = record {
  app_env = AppEnv.production;
  app_debug = false;
  metrics_enabled = true;
  metrics_path = codes "/metrics";
  otel_sample_ratio = pos 1000000;
  sentry_enabled = false;
  sentry_dsn = none;
  sentry_traces_sample_rate = pos 0;
  cors_allow_origins = origin_string (codes "http://a, http://b,,");
  jwt_secret_key = codes "0123456789abcdef0123456789abcdef";
  jwt_access_secret_key = none;
  jwt_refresh_secret_key = none;
}

abbrev served : Env
served = record env {
  settings = record env.settings { jwt_secret_key = codes "0123456789abcdef0123456789abcdef" };
}

program : Unit {0}
unfolding text_eq strip is_space split stripped_items parse_cors_allow_origins
    validate_jwt_secret_key validate_optional_jwt_secret_key validate_sample_rate
    validate_production_settings validate_fields make_settings
program = tt

origins :
    parse_cors_allow_origins given.cors_allow_origins ≡ codes "http://a" ∷ codes "http://b" ∷ []
unfolding program
origins = refl

refused :
    (make_settings (record given { app_debug = true }) ≡ none)
    × (make_settings (record given { jwt_secret_key = default_secret }) ≡ none)
    × (make_settings (record given { otel_sample_ratio = negsuc 0 }) ≡ none)
    × (make_settings (record given { metrics_path = codes "metrics" }) ≡ none)
unfolding program
refused = (refl, refl, refl, refl)

make_settings-signing_keys_example :
    (32 ≤ length (access_signing_key served)) × (32 ≤ length (refresh_signing_key served))
unfolding program
make_settings-signing_keys_example = make_settings-signing_keys served given refl refl refl refl
