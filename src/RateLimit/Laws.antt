-- ===== src/RateLimit/Laws.antt =====
-- The login limiter over a Redis that answers and in which nothing expires meanwhile, and over one
-- that fails.
use loglens_api.Base.{
  ℕ, zero, suc, ◌+◌, ◌≡◌, ◌≢◌, refl, Bool, true, false, [], ◌∷◌, ◌++◌, Option, none, some, arith,
  if◌then◌else◌, ltb, Bool-cases, inl, inr,
}
use loglens_api.Text.{Text, text_eq, codes}
use loglens_api.Text.Laws.{text_eq→eq, text_eq_refl}
use loglens_api.Text.Decimal.{str, parse_int-str}
use loglens_api.Effect.{Env, World, reply, redis_error, Raw, str_value, ok}
use loglens_api.RateLimit.{Limiter, redis_key, is_allowed, add_failure, clear}

abbrev pub count_of : Option ℕ → ℕ
count_of none = 0
count_of (some n) = n

-- GET of a counter gives its decimal text.
abbrev pub shown : Option ℕ → Option Raw
shown none = none
shown (some n) = some (str_value (str n))

-- What Redis documents of GET, INCR, EXPIRE and DEL on counters, as long as it answers.
pub record Counters (env : Env) : Type 0 where
  pub view : env.Redis → Text → Option ℕ
  pub get_lem : (k : Text) (r : env.Redis) → env.redis_get k r ≡ (reply (shown (view r k)), r)
  pub incr_lem :
      (k : Text) (r : env.Redis)
      → (r' : env.Redis) × (env.redis_incr k r ≡ (reply (count_of (view r k) + 1), r'))
        × ((j : Text)
            → view r' j ≡ (if text_eq j k then some (count_of (view r k) + 1) else view r j))
  pub expire_lem :
      (k : Text) (seconds : ℕ) (r : env.Redis)
      → (b : Bool) × (r' : env.Redis) × (env.redis_expire k seconds r ≡ (reply b, r'))
        × ((j : Text) → view r' j ≡ view r j)
  pub delete_lem :
      (k : Text) (r : env.Redis)
      → (n : ℕ) × (r' : env.Redis) × (env.redis_delete (k ∷ []) r ≡ (reply n, r'))
        × ((j : Text) → view r' j ≡ (if text_eq j k then none else view r j))

append_cancel : (p s t : Text) → p ++ s ≡ p ++ t → s ≡ t
append_cancel [] s t h = h
append_cancel (c ∷ p) s t h = append_cancel p s t (cc)

-- Two clients of one limiter never share a counter.
pub redis_key-injective : (l : Limiter) (a b : Text) → redis_key l a ≡ redis_key l b → a ≡ b
unfolding redis_key
redis_key-injective l a b h =
    append_cancel (codes ":") a b (append_cancel l.key_prefix (codes ":" ++ a) (codes ":" ++ b) h)

-- No counter allows; a counter allows below the limit.
abbrev pub allows : Limiter → Option ℕ → Bool
allows l none = true
allows l (some n) = ltb n l.max_attempts

module _ (env : Env) (l : Limiter) where
  -- `n` failed logins in a row.
  abbrev pub after_failures : ℕ → Text → World env → World env
  after_failures zero key w = w
  after_failures (suc n) key w = (add_failure env l key (after_failures n key w)).1

module _ (env : Env) (c : Counters env) (l : Limiter) where
  abbrev pub counter : Text → World env → Option ℕ
  counter key w = c.view w.redis (redis_key l key)

  is_allowed-view :
      (key : Text) (w : World env) (n : Option ℕ)
      → counter key w ≡ n
      → is_allowed env l key w ≡ (ok (allows l n), w)
  unfolding is_allowed
  is_allowed-view key w none h = ground (arith, c.get_lem (redis_key l key) w.redis)
  is_allowed-view key w (some n) h =
      ground (arith, c.get_lem (redis_key l key) w.redis, parse_int-str n)

  -- `is_allowed` reads the counter and changes nothing.
  pub is_allowed-counter :
      (key : Text) (w : World env) → is_allowed env l key w ≡ (ok (allows l (counter key w)), w)
  is_allowed-counter key w = is_allowed-view key w (counter key w) refl

  pub counter-add_failure :
      (key other : Text) (w : World env)
      → counter other (add_failure env l key w).1 ≡ (
          if text_eq (redis_key l other) (redis_key l key)
          then some (count_of (counter key w) + 1)
          else counter other w)
  unfolding add_failure
  counter-add_failure key other w =
      let k = redis_key l key in
      let j = redis_key l other in
      let (r, e, seen) = c.incr_lem k w.redis in
      let (b, r', e', seen') = c.expire_lem k l.window_seconds r in ground (arith, seen j, seen' j)

  pub counter-clear :
      (key other : Text) (w : World env)
      → counter other (clear env l key w).1
        ≡ (if text_eq (redis_key l other) (redis_key l key) then none else counter other w)
  unfolding clear
  counter-clear key other w =
      let k = redis_key l key in
      let (n, r, e, seen) = c.delete_lem k w.redis in ground (arith, seen (redis_key l other))

  counter-after_failures :
      (n : ℕ) (key : Text) (w : World env)
      → counter key w ≡ none
      → count_of (counter key (after_failures env l n key w)) ≡ n
  counter-after_failures zero key w h = rw h
  counter-after_failures (suc n) key w h =
      rw
        (counter-add_failure key key (after_failures env l n key w), text_eq_refl (redis_key l key))
        (omega (arith, counter-after_failures n key w h))

  -- From a cleared counter, after one or more failures in the window a login is allowed exactly if
  -- there were fewer of them than the limit.
  pub is_allowed-after_failures :
      (n : ℕ) (key : Text) (w : World env)
      → (is_allowed env l key (after_failures env l (suc n) key (clear env l key w).1)).0
        ≡ ok (ltb (suc n) l.max_attempts)
  is_allowed-after_failures n key w =
      let cleared = (clear env l key w).1 in
      let start : counter key cleared ≡ none =
        rw (counter-clear key key w, text_eq_refl (redis_key l key)) in
      rw
        (
          is_allowed-view key (after_failures env l (suc n) key cleared)
              (some (count_of (counter key (after_failures env l n key cleared)) + 1))
              (rw (
                counter-add_failure key key (after_failures env l n key cleared),
                text_eq_refl (redis_key l key),
              )),
          counter-after_failures n key cleared start,
        )
        (ground arith)

  -- The failures of one client never count against another.
  pub is_allowed-other_client :
      (n : ℕ) (key other : Text) (w : World env)
      → other ≢ key
      → (is_allowed env l other (after_failures env l n key w)).0 ≡ (is_allowed env l other w).0
  is_allowed-other_client n key other w ne =
      rw (
        is_allowed-counter other (after_failures env l n key w),
        is_allowed-counter other w,
        same n,
      )
    where
      apart : text_eq (redis_key l other) (redis_key l key) ≡ false
      apart = elim (Bool-cases (text_eq (redis_key l other) (redis_key l key))) [
        | inl e ↦ absurd (ne (redis_key-injective l other key (text_eq→eq _ _ e)))
        | inr e ↦ e
      ]

      same : (m : ℕ) → counter other (after_failures env l m key w) ≡ counter other w
      same zero = refl
      same (suc m) =
          rw (counter-add_failure key other (after_failures env l m key w), apart) (same m)

-- When Redis cannot be read, every login attempt is allowed.
pub is_allowed-fails_open :
    (env : Env) (l : Limiter) (key : Text) (w : World env)
    → (env.redis_get (redis_key l key) w.redis).0 ≡ redis_error
    → (is_allowed env l key w).0 ≡ ok true
unfolding is_allowed
is_allowed-fails_open env l key w down = ground arith
