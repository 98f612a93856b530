-- ===== src/Config/Secrets.antt =====
-- What settings that were accepted guarantee.
use loglens_api.Base.{
  ◌≤◌, ◌≡◌, ◌≢◌, true, false, Option, none, some, List, [], ◌∷◌, All, arith, length,
}
use loglens_api.Text.{Text, strip}
use loglens_api.Text.Laws.{text_eq_refl}
use loglens_api.Effect.{Env}
use loglens_api.Security.{or_text, access_signing_key, refresh_signing_key}
use loglens_api.Config.{
  AppEnv, RawSettings, ValidSettings, default_secret, keep_item, stripped_items,
  validate_jwt_secret_key, validate_optional_jwt_secret_key, validate_production_settings,
  validate_fields, make_settings,
}

accepted :
    (raw : RawSettings) {s : ValidSettings}
    → make_settings raw ≡ some s
    → (validate_fields raw ≡ true) × (validate_production_settings raw ≡ true) × (s.raw ≡ raw)
unfolding make_settings
accepted raw h = (ground arith, ground arith, ground arith)

long_secret :
    (given : Option Text) (shared : Text)
    → validate_optional_jwt_secret_key given ≡ true
    → validate_jwt_secret_key shared ≡ true
    → 32 ≤ length (or_text given shared)
unfolding validate_jwt_secret_key validate_optional_jwt_secret_key
long_secret none shared own common = ground arith
long_secret (some []) shared own common = ground arith
long_secret (some (c ∷ s)) shared own common = ground arith

-- The keys that tokens are signed with have at least 32 characters, if the secrets of the environment
-- are those of settings that were accepted.
pub make_settings-signing_keys :
    (env : Env) (raw : RawSettings) {s : ValidSettings}
    → make_settings raw ≡ some s
    → env.settings.jwt_secret_key ≡ raw.jwt_secret_key
    → env.settings.jwt_access_secret_key ≡ raw.jwt_access_secret_key
    → env.settings.jwt_refresh_secret_key ≡ raw.jwt_refresh_secret_key
    → (32 ≤ length (access_signing_key env)) × (32 ≤ length (refresh_signing_key env))
unfolding access_signing_key refresh_signing_key validate_fields
make_settings-signing_keys env raw h secret access refresh =
    let (fields, _, _) = accepted raw h in
    rw (secret, access, refresh)
      (
        long_secret raw.jwt_access_secret_key raw.jwt_secret_key (ground arith) (ground arith),
        long_secret raw.jwt_refresh_secret_key raw.jwt_secret_key (ground arith) (ground arith),
      )

-- Settings of production that were accepted neither debug nor keep the secret of the sources.
pub make_settings-production :
    (raw : RawSettings) {s : ValidSettings}
    → make_settings raw ≡ some s
    → raw.app_env ≡ AppEnv.production
    → (raw.app_debug ≡ false) × (raw.jwt_secret_key ≢ default_secret)
unfolding validate_production_settings
make_settings-production raw h production =
    let (_, rules, _) = accepted raw h in
    (ground arith, λ e. absurd (ground (arith, text_eq_refl default_secret)))

-- No origin that is read from a string is empty.
parse_cors-not_empty : (items : List Text) → All (λ o. o ≢ []) (stripped_items items)
unfolding stripped_items
parse_cors-not_empty [] = tt
parse_cors-not_empty (item ∷ items) = keeps (strip item) (parse_cors-not_empty items)
  where
    keeps :
        (t : Text)
        → All (λ o. o ≢ []) (stripped_items items)
        → All (λ o. o ≢ []) (keep_item t (stripped_items items))
    keeps [] h = h
    keeps (c ∷ t) h = ((λ e. cc), h)
