-- ===== src/Connections.antt =====
-- app/database/session.py and app/core/redis.py: the engine, the factory of sessions and the Redis client
-- that a process keeps, with the instrumentation of engines in app/observability/metrics.py and tracing.py,
-- and the two readiness checks. An engine or a client is the number of its creation.
pub mod Consistent
pub mod Lifetimes
use loglens_api.Base.{
  ℕ, ◌+◌, Bool, true, false, Option, none, some, List, [], ◌∷◌, ◌==◌, if◌then◌else◌,
}

-- The variables of the modules. `listened` and `traced` are the engines that metrics and traces are taken
-- of; `disposed` and `closed` what was given up properly.
pub record Process : Type 0 where
  pub engine : Option ℕ
  pub session_factory : Option ℕ
  pub redis_client : Option ℕ
  pub engines_made : ℕ
  pub clients_made : ℕ
  pub metrics_instrumented : Bool
  pub tracing_instrumented : Bool
  pub listened : List ℕ
  pub traced : List ℕ
  pub disposed : List ℕ
  pub closed : List ℕ
  pub database_up : Option Bool
  pub redis_up : Option Bool

-- Before the first call.
abbrev pub initial : Process
initial = record {
  engine = none;
  session_factory = none;
  redis_client = none;
  engines_made = 0;
  clients_made = 0;
  metrics_instrumented = false;
  tracing_instrumented = false;
  listened = [];
  traced = [];
  disposed = [];
  closed = [];
  database_up = none;
  redis_up = none;
}

unfoldable pub instrument_sqlalchemy_engine : ℕ → Process → Process
instrument_sqlalchemy_engine engine p =
    if p.metrics_instrumented
    then p
    else record p { listened = engine ∷ p.listened; metrics_instrumented = true }

unfoldable pub instrument_sqlalchemy : ℕ → Process → Process
instrument_sqlalchemy engine p =
    if p.tracing_instrumented
    then p
    else record p { traced = engine ∷ p.traced; tracing_instrumented = true }

-- Each getter gives what it returns, and the variables that it leaves.
module _ (otel_enabled : Bool) where
  abbrev create_engine : Process → ℕ × Process
  unfolding instrument_sqlalchemy_engine instrument_sqlalchemy
  create_engine p =
      let made = record p { engine = some p.engines_made; engines_made = p.engines_made + 1 } in
      let measured = instrument_sqlalchemy_engine p.engines_made made in
      (
        p.engines_made,
        if otel_enabled then instrument_sqlalchemy p.engines_made measured else measured,
      )

  abbrev engine_or_new : Process → Option ℕ → ℕ × Process
  unfolding create_engine
  engine_or_new p (some engine) = (engine, p)
  engine_or_new p none = create_engine p

  unfoldable pub get_engine : Process → ℕ × Process
  unfolding engine_or_new
  get_engine p = engine_or_new p p.engine

  -- The factory, as the engine that its sessions are bound to.
  abbrev factory_or_new : Process → Option ℕ → ℕ × Process
  unfolding get_engine
  factory_or_new p (some bound_to) = (bound_to, p)
  factory_or_new p none =
      let (engine, p') = get_engine p in (engine, record p' { session_factory = some engine })

  unfoldable pub get_session_factory : Process → ℕ × Process
  unfolding factory_or_new
  get_session_factory p = factory_or_new p p.session_factory

unfoldable pub dispose_engine : Process → Process
dispose_engine p = elim p.engine [
  | none ↦ p
  | some engine ↦ record p { disposed = engine ∷ p.disposed; engine = none; session_factory = none }
]

abbrev client_or_new : Process → Option ℕ → ℕ × Process
client_or_new p (some client) = (client, p)
client_or_new p none = (
  p.clients_made,
  record p { redis_client = some p.clients_made; clients_made = p.clients_made + 1 },
)

unfoldable pub get_redis_client : Process → ℕ × Process
get_redis_client p = client_or_new p p.redis_client

unfoldable pub close_redis_client : Process → Process
close_redis_client p = elim p.redis_client [
  | none ↦ p
  | some client ↦ record p { closed = client ∷ p.closed; redis_client = none }
]

unfoldable pub reset_redis_client : Process → Process
reset_redis_client p = record p { redis_client = none }

-- What follows the `yield` of `lifespan` in app/main.py.
unfoldable pub shut_down : Process → Process
unfolding close_redis_client dispose_engine
shut_down p = dispose_engine (close_redis_client p)

-- `SELECT 1` gives a number, or any exception.
pub data Selected : Type 0 where
  scalar : ℕ → Selected
  raised : Selected

-- PING gives a truth value, is too late or raises `RedisError`, or raises something else.
pub data Ping : Type 0 where
  answered : Bool → Ping
  failed other_error : Ping

abbrev pub set_database_availability : Bool → Process → Process
set_database_availability is_up p = record p { database_up = some is_up }

abbrev pub set_redis_availability : Bool → Process → Process
set_redis_availability is_up p = record p { redis_up = some is_up }

abbrev select_outcome : Selected → Process → Bool × Process
select_outcome (scalar n) p = (n == 1, set_database_availability (n == 1) p)
select_outcome raised p = (false, set_database_availability false p)

unfoldable pub check_database_connection : Bool → Selected → Process → Bool × Process
unfolding get_engine
check_database_connection otel_enabled selected p =
    select_outcome selected (get_engine otel_enabled p).1

abbrev ping_outcome : Ping → Process → Option Bool × Process
ping_outcome (answered is_up) p = (some is_up, set_redis_availability is_up p)
ping_outcome failed p = (some false, set_redis_availability false p)
ping_outcome other_error p = (none, p)

-- `none` is an exception that the check lets through.
unfoldable pub check_redis_connection : Ping → Process → Option Bool × Process
unfolding get_redis_client
check_redis_connection ping p = ping_outcome ping (get_redis_client p).1
