-- ===== src/RateLimit.antt =====
-- app/core/rate_limit.py: failed logins counted in Redis. Each method catches `RedisError`.
pub mod Laws
pub mod Windows
use loglens_api.Base.{
  ℕ, Bool, true, false, Option, none, some, List, [], ◌∷◌, ◌++◌, map, ltb, ◌==◌, if◌then◌else◌,
}
use loglens_api.Text.{Text, codes}
use loglens_api.Text.Decimal.{ℤ, pos, negsuc, parse_int}
use loglens_api.Errors.{value_error}
use loglens_api.Effect.{
  Env, Reply, reply, redis_error, Raw, str_value, bytes_value, World, Action, ok, err, pure,
  or_raise, ◌>>=◌, ◌>>◌, redis_call,
}

pub record Limiter : Type 0 where
  pub max_attempts : ℕ
  pub window_seconds : ℕ
  pub key_prefix : Text

unfoldable pub redis_key : Limiter → Text → Text
redis_key l key = l.key_prefix ++ (codes ":" ++ key)

abbrev pub decoded : Raw → Text
decoded (str_value t) = t
decoded (bytes_value t) = t

-- `count < max_attempts`
abbrev pub below : ℤ → ℕ → Bool
below (pos n) m = ltb n m
below (negsuc n) m = true

module _ (env : Env) where
  abbrev pub count_allows : Limiter → Reply (Option Raw) → Action env Bool
  count_allows l redis_error = pure true
  count_allows l (reply none) = pure true
  count_allows l (reply (some raw)) = do
    count ← or_raise (parse_int (decoded raw)) value_error
    pure (below count l.max_attempts)

  unfoldable pub is_allowed : Limiter → Text → Action env Bool
  unfolding redis_key
  is_allowed l key = do count ← redis_call (env.redis_get (redis_key l key)); count_allows l count

  abbrev pub start_window : Limiter → Text → Reply ℕ → Action env (Unit {0})
  start_window l key redis_error = pure tt
  start_window l key (reply count) =
      if count == 1
      then redis_call (env.redis_expire key l.window_seconds) >>= (λ _. pure tt)
      else pure tt

  unfoldable pub add_failure : Limiter → Text → Action env (Unit {0})
  unfolding redis_key
  add_failure l key = do
    count ← redis_call (env.redis_incr (redis_key l key))
    start_window l (redis_key l key) count

  unfoldable pub clear : Limiter → Text → Action env (Unit {0})
  unfolding redis_key
  clear l key = do redis_call (env.redis_delete (redis_key l key ∷ [])); pure tt

  abbrev pub delete_keys : Reply (List Raw) → Action env (Unit {0})
  delete_keys redis_error = pure tt
  delete_keys (reply []) = pure tt
  delete_keys (reply (k ∷ ks)) =
      redis_call (env.redis_delete (map decoded (k ∷ ks))) >>= (λ _. pure tt)

  unfoldable pub reset_all : Limiter → Action env (Unit {0})
  reset_all l = do keys ← redis_call (env.redis_scan (l.key_prefix ++ codes ":*")); delete_keys keys

  -- `get_login_rate_limiter`: the limiter of the settings.
  abbrev pub login_rate_limiter : Limiter
  login_rate_limiter = record {
    max_attempts = env.settings.login_rate_limit_attempts;
    window_seconds = env.settings.login_rate_limit_window_seconds;
    key_prefix = codes "auth:login_attempts";
  }
