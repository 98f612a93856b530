-- ===== src/RateLimit/Windows.antt =====
-- `LoginRateLimiter.add_failure`: when the window of a counter is set.
use loglens_api.Base.{ℕ, zero, suc, ◌+◌, ◌≡◌, ◌∙◌, ap, none, some, arith, Option}
use loglens_api.Text.{Text}
use loglens_api.Effect.{Env, World, reply, redis_error}
use loglens_api.RateLimit.{Limiter, redis_key, add_failure}
use loglens_api.RateLimit.Laws.{count_of, after_failures}

-- What Redis documents of INCR on counters, as long as it answers.
pub record Increments (env : Env) : Type 0 where
  pub view : env.Redis → Text → Option ℕ
  pub incr_lem :
      (k : Text) (r : env.Redis)
      → (r' : env.Redis) × (env.redis_incr k r ≡ (reply (count_of (view r k) + 1), r'))
        × (view r' k ≡ some (count_of (view r k) + 1))

module _ (env : Env) (c : Increments env) (l : Limiter) where
  -- The store after a number of INCRs of the client's counter, and nothing else.
  abbrev pub increments : ℕ → Text → env.Redis → env.Redis
  increments zero key r = r
  increments (suc n) key r = (env.redis_incr (redis_key l key) (increments n key r)).1

  increments-counter :
      (n : ℕ) (key : Text) (r : env.Redis)
      → c.view r (redis_key l key) ≡ some 1
      → c.view (increments n key r) (redis_key l key) ≡ some (suc n)
  increments-counter zero key r first = first
  increments-counter (suc n) key r first =
      let before = increments-counter n key r first in
      let (r', e, seen) = c.incr_lem (redis_key l key) (increments n key r) in ground arith

  -- A failure behind the first one sends INCR only.
  add_failure-later :
      (key : Text) (w : World env) (m : ℕ)
      → c.view w.redis (redis_key l key) ≡ some (suc m)
      → (add_failure env l key w).1
        ≡ record w { redis = (env.redis_incr (redis_key l key) w.redis).1 }
  unfolding add_failure
  add_failure-later key w m here =
      let (r', e, seen) = c.incr_lem (redis_key l key) w.redis in ground arith

  -- If the first failure of a client is counted but its EXPIRE fails, then the failures behind it leave
  -- the store as that many INCRs of the client's counter do: none of them sets an expiry.
  pub after_failures-unexpiring :
      (n : ℕ) (key : Text) (w : World env) (r : env.Redis)
      → c.view w.redis (redis_key l key) ≡ none
      → env.redis_expire
          (redis_key l key)
          l.window_seconds
          (env.redis_incr (redis_key l key) w.redis).1
        ≡ (redis_error, r)
      → c.view r (redis_key l key) ≡ some 1
      → after_failures env l (suc n) key w ≡ record w { redis = increments n key r }
  unfolding add_failure
  after_failures-unexpiring zero key w r new lost kept =
      let (r', e, seen) = c.incr_lem (redis_key l key) w.redis in ground arith
  after_failures-unexpiring (suc n) key w r new lost kept =
      ap (λ v. (add_failure env l key v).1) (after_failures-unexpiring n key w r new lost kept)
      ∙ add_failure-later key (record w { redis = increments n key r }) n
          (increments-counter n key r kept)
