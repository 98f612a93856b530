-- ===== src/Security.antt =====
-- app/core/security.py: passwords, and the two kinds of JWT.
use loglens_api.Base.{
  ℕ, ◌+◌, ◌*◌, ◌/◌, Bool, true, false, Option, none, some, [], ◌∷◌, if◌then◌else◌,
}
use loglens_api.Text.{Text, codes, text_eq}
use loglens_api.Models.{Instant}
use loglens_api.Errors.{value_error, invalid_hash_error}
use loglens_api.Effect.{
  Env, Claim, str_claim, other_claim, Claims, Verdict, verified, mismatch, invalid_hash, Action,
  pure, raise, or_raise, ◌>>=◌, utc_now, draw,
}

pub record RefreshTokenData : Type 0 where
  pub token : Text
  pub jti : Text
  pub family_id : Text
  pub expires_at : Instant
  pub expires_in_seconds : ℕ

-- The dictionary that `decode_refresh_token` returns.
pub record RefreshClaims : Type 0 where
  pub sub : Text
  pub jti : Text
  pub family_id : Text

-- `a or b` on an optional text: the empty text is false.
abbrev pub or_text : Option Text → Text → Text
or_text none b = b
or_text (some []) b = b
or_text (some (c ∷ s)) b = c ∷ s

abbrev pub access_kind : Text
access_kind = codes "access"

abbrev pub refresh_kind : Text
refresh_kind = codes "refresh"

-- Microseconds in a minute, and in a second.
abbrev pub minute : ℕ
minute = 60000000

abbrev pub second : ℕ
second = 1000000

-- `payload.get(key)` where `isinstance(_, str)` holds of it.
abbrev pub string_claim : Option Claim → Option Text
string_claim none = none
string_claim (some (str_claim t)) = some t
string_claim (some other_claim) = none

-- `payload.get("type") == kind`
abbrev pub has_kind : Text → Option Claim → Bool
has_kind kind none = false
has_kind kind (some (str_claim t)) = text_eq t kind
has_kind kind (some other_claim) = false

module _ (env : Env) where
  open env use {settings}

  unfoldable pub access_signing_key : Text
  access_signing_key = or_text settings.jwt_access_secret_key settings.jwt_secret_key

  unfoldable pub refresh_signing_key : Text
  refresh_signing_key = or_text settings.jwt_refresh_secret_key settings.jwt_secret_key

  unfoldable pub hash_password : Text → Action env Text
  hash_password password = do salt ← draw; pure (env.argon2_hash salt password)

  -- Only a mismatch is caught; a malformed hash raises on.
  abbrev pub verdict_result : Verdict → Action env Bool
  verdict_result verified = pure true
  verdict_result mismatch = pure false
  verdict_result invalid_hash = raise invalid_hash_error

  unfoldable pub verify_password : Text → Text → Action env Bool
  verify_password password password_hash = verdict_result (env.argon2_verify password_hash password)

  unfoldable pub create_access_token : Text → Action env (Text × ℕ)
  unfolding access_signing_key
  create_access_token subject = do
    let lifetime = settings.jwt_access_token_expire_minutes * minute
    now ← utc_now
    let payload : Claims = record {
      sub = some (str_claim subject);
      kind = some (str_claim access_kind);
      jti = none;
      family_id = none;
      exp = some (now + lifetime);
    }
    pure (env.jwt_encode payload access_signing_key settings.jwt_algorithm, lifetime / second)

  -- `given or str(uuid4())`
  abbrev pub or_uuid : Option Text → Action env Text
  or_uuid none = do n ← draw; pure (env.uuid4 n)
  or_uuid (some []) = do n ← draw; pure (env.uuid4 n)
  or_uuid (some (c ∷ s)) = pure (c ∷ s)

  abbrev pub refresh_claims : Text → Text → Text → Instant → Claims
  refresh_claims subject jti family expire_at = record {
    sub = some (str_claim subject);
    kind = some (str_claim refresh_kind);
    jti = some (str_claim jti);
    family_id = some (str_claim family);
    exp = some expire_at;
  }

  unfoldable pub create_refresh_token : Text → Option Text → Action env RefreshTokenData
  unfolding refresh_signing_key
  create_refresh_token subject family_id = do
    let lifetime = settings.jwt_refresh_token_expire_minutes * minute
    now ← utc_now
    let expire_at = now + lifetime
    token_jti ← or_uuid none
    token_family_id ← or_uuid family_id
    pure (record {
      token =
          env.jwt_encode (refresh_claims subject token_jti token_family_id expire_at)
            refresh_signing_key settings.jwt_algorithm;
      jti = token_jti;
      family_id = token_family_id;
      expires_at = expire_at;
      expires_in_seconds = lifetime / second;
    })

  -- The checks on a decoded payload; `JWTError` and a bad payload are both `ValueError`.
  abbrev pub access_subject : Option Claims → Option Text
  access_subject none = none
  access_subject (some p) = if has_kind access_kind p.kind then string_claim p.sub else none

  unfoldable pub decode_access_token : Text → Action env Text
  unfolding access_signing_key
  decode_access_token token = do
    now ← utc_now
    or_raise (access_subject (env.jwt_decode now token access_signing_key settings.jwt_algorithm))
        value_error

  abbrev pub three_claims : Option Text → Option Text → Option Text → Option RefreshClaims
  three_claims (some s) (some j) (some f) = some (record { sub = s; jti = j; family_id = f })
  three_claims (some s) (some j) none = none
  three_claims (some s) none f = none
  three_claims none j f = none

  abbrev pub refresh_payload : Option Claims → Option RefreshClaims
  refresh_payload none = none
  refresh_payload (some p) =
      if has_kind refresh_kind p.kind
      then three_claims (string_claim p.sub) (string_claim p.jti) (string_claim p.family_id)
      else none

  unfoldable pub decode_refresh_token : Text → Action env RefreshClaims
  unfolding refresh_signing_key
  decode_refresh_token token = do
    now ← utc_now
    or_raise (refresh_payload (env.jwt_decode now token refresh_signing_key settings.jwt_algorithm))
        value_error

  abbrev pub hash_refresh_token_identifier : Text → Text
  hash_refresh_token_identifier jti = env.sha256 jti
