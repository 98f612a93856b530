-- ===== src/Effect.antt =====
-- What a request or a task runs in: the database with its transaction, Redis, the clock, and the
-- services of other packages. A method is a state transformer that also returns when it raises.
pub mod Externals
pub mod Store
pub mod Laws
pub mod Keeps
pub use Externals.{
  Env, Pattern, uuid, iso_timestamp, iso_date, email, ip, memory_address, request_id, label_number,
  hex, long_number, stack_line, colon_number, Settings, Claim, str_claim, other_claim, Claims,
  Verdict, verified, mismatch, invalid_hash, Reply, reply, redis_error, Raw, str_value, bytes_value,
  AiProvider, ChatRequest, ChatReply, Content,
}
pub use Store.{Db, Sequences, World, QueuedTask, bulk_ingestion, group_analysis}
use loglens_api.Base.{ℕ, ◌+◌, Bool, Option, none, some, if◌then◌else◌}
use loglens_api.Errors.{Error}
use loglens_api.Models.{Instant}

pub data Result {ℓ} (A : Type ℓ) : Type ℓ where
  ok : A → Result A
  err : Error → Result A

abbrev pub Action : Env → Type 0 → Type 0
Action env A = World env → Result A × World env

module _ {env : Env} {A : Type 0} where
  abbrev pub pure : A → Action env A
  pure a w = (ok a, w)

  abbrev pub raise : Error → Action env A
  raise e w = (err e, w)

  abbrev pub gets : (World env → A) → Action env A
  gets f w = (ok (f w), w)

  -- A row that is there, or the exception.
  abbrev pub or_raise : Option A → Error → Action env A
  or_raise none e w = (err e, w)
  or_raise (some a) e w = (ok a, w)

infixl 5 ◌>>=◌ ◌>>◌
abbrev pub ◌>>=◌ : {env : Env} {A B : Type 0} → Action env A → (A → Action env B) → Action env B
◌>>=◌ m f w = let (r, w') = m w in elim r [ ok a ↦ f a w' | err e ↦ (err e, w') ]

abbrev pub ◌>>◌ : {env : Env} {A B : Type 0} → Action env A → Action env B → Action env B
m >> k = m >>= λ _. k

abbrev pub raise_if : {env : Env} → Bool → Error → Action env (Unit {0})
raise_if c e w = (if c then err e else ok tt, w)

-- The rows that the session sees: its own uncommitted writes included.
abbrev pub query : {env : Env} {A : Type 0} → (Db → A) → Action env A
query f w = (ok (f w.working), w)

abbrev pub write : {env : Env} → (Db → Db) → Action env (Unit {0})
write f w = (ok tt, record w { working = f w.working })

-- `datetime.now(UTC)`: the next reading of the clock.
abbrev pub utc_now : {env : Env} → Action env Instant
utc_now {env} w = (ok (env.clock w.readings), record w { readings = w.readings + 1 })

-- `session.commit()`: the writes are kept, and the next transaction has a time of its own.
abbrev pub commit : {env : Env} → Action env (Unit {0})
commit {env} w = (
  ok tt,
  record w {
    committed = w.working;
    transaction_time = env.clock w.readings;
    readings = w.readings + 1;
  },
)

-- `session.rollback()`, and what closing a session does.
abbrev pub rollback : {env : Env} → Action env (Unit {0})
rollback {env} w = (
  ok tt,
  record w {
    working = w.committed;
    transaction_time = env.clock w.readings;
    readings = w.readings + 1;
  },
)

-- `nextval` of one of the sequences.
abbrev pub next_id : {env : Env} → (Sequences → ℕ) → (Sequences → Sequences) → Action env ℕ
next_id get bump w = (ok (get w.sequences), record w { sequences = bump w.sequences })

-- A fresh draw of randomness.
abbrev pub draw : {env : Env} → Action env ℕ
draw w = (ok w.draws, record w { draws = w.draws + 1 })

-- The time of the transaction, which is SQL's `now()`.
abbrev pub transaction_now : {env : Env} → Action env Instant
transaction_now w = (ok w.transaction_time, w)

-- A command to Redis; `RedisError` is a value that the caller catches.
abbrev pub redis_call :
    {env : Env} {A : Type 0} → (env.Redis → Reply A × env.Redis) → Action env (Reply A)
redis_call command w = let (answer, r) = command w.redis in (ok answer, record w { redis = r })

-- `try: m except E: handler`, where `handler` looks at the exception.
abbrev pub catch : {env : Env} {A : Type 0} → Action env A → (Error → Action env A) → Action env A
catch m handler w = let (r, w') = m w in elim r [ ok a ↦ (ok a, w') | err e ↦ handler e w' ]
