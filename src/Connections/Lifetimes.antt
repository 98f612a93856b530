-- ===== src/Connections/Lifetimes.antt =====
-- What holds of the connections of a process after any calls.
use loglens_api.Base.{◌≡◌, subst, Bool, true, false, Option, none, some, All, arith, ◌==◌}
use loglens_api.Connections.{
  Process, initial, get_engine, get_session_factory, dispose_engine, get_redis_client,
  close_redis_client, reset_redis_client, instrument_sqlalchemy_engine, instrument_sqlalchemy,
  check_database_connection, check_redis_connection, Selected, Ping, shut_down,
}
use loglens_api.Connections.Consistent.{
  IsUnlisted, IsConsistent, initial-IsConsistent, engine_created, get_engine-IsConsistent,
  factory-IsConsistent, dispose-IsConsistent, client-IsConsistent, close-IsConsistent,
  fresh-IsUnlisted,
}

-- A call of the two modules.
pub data Call (otel_enabled : Bool) : Process → Process → Type 0 where
  engine_got : {p : Process} → Call otel_enabled p (get_engine otel_enabled p).1
  factory_got : {p : Process} → Call otel_enabled p (get_session_factory otel_enabled p).1
  engine_disposed : {p : Process} → Call otel_enabled p (dispose_engine p)
  client_got : {p : Process} → Call otel_enabled p (get_redis_client p).1
  client_closed : {p : Process} → Call otel_enabled p (close_redis_client p)
  client_reset : {p : Process} → Call otel_enabled p (reset_redis_client p)
  database_checked :
      (s : Selected) {p : Process}
      → Call otel_enabled p (check_database_connection otel_enabled s p).1
  redis_checked : (r : Ping) {p : Process} → Call otel_enabled p (check_redis_connection r p).1
  process_shut_down : {p : Process} → Call otel_enabled p (shut_down p)

pub data Reachable (otel_enabled : Bool) : Process → Type 0 where
  started : Reachable otel_enabled initial
  after :
      {p q : Process} → Reachable otel_enabled p → Call otel_enabled p q → Reachable otel_enabled q

-- The gauges of availability are no part of it.
availability-IsConsistent :
    (p : Process) (database redis : Option Bool)
    → IsConsistent p
    → IsConsistent (record p { database_up = database; redis_up = redis })
availability-IsConsistent p database redis h = record {
  bound = h.bound;
  engine_live = h.engine_live;
  client_live = h.client_live;
  engine_made = h.engine_made;
  client_made = h.client_made;
  disposed_made = h.disposed_made;
  closed_made = h.closed_made;
  listened_made = h.listened_made;
}

reset-IsConsistent : (p : Process) → IsConsistent p → IsConsistent (reset_redis_client p)
unfolding reset_redis_client
reset-IsConsistent p h = record {
  bound = h.bound;
  engine_live = h.engine_live;
  client_live = tt;
  engine_made = h.engine_made;
  client_made = tt;
  disposed_made = h.disposed_made;
  closed_made = h.closed_made;
  listened_made = h.listened_made;
}

module _ (otel_enabled : Bool) where
  database-IsConsistent :
      (s : Selected) (p : Process)
      → IsConsistent p
      → IsConsistent (check_database_connection otel_enabled s p).1
  unfolding check_database_connection
  database-IsConsistent (Selected.scalar n) p h =
      availability-IsConsistent (get_engine otel_enabled p).1 _ _
        (get_engine-IsConsistent otel_enabled p h).0
  database-IsConsistent Selected.raised p h =
      availability-IsConsistent (get_engine otel_enabled p).1 _ _
        (get_engine-IsConsistent otel_enabled p h).0

  redis-IsConsistent :
      (r : Ping) (p : Process) → IsConsistent p → IsConsistent (check_redis_connection r p).1
  unfolding check_redis_connection
  redis-IsConsistent (Ping.answered up) p h =
      availability-IsConsistent (get_redis_client p).1 _ _ (client-IsConsistent p h)
  redis-IsConsistent Ping.failed p h =
      availability-IsConsistent (get_redis_client p).1 _ _ (client-IsConsistent p h)
  redis-IsConsistent Ping.other_error p h = client-IsConsistent p h

  Call-IsConsistent : {p q : Process} → Call otel_enabled p q → IsConsistent p → IsConsistent q
  unfolding shut_down
  Call-IsConsistent (Call.engine_got {p}) h = (get_engine-IsConsistent otel_enabled p h).0
  Call-IsConsistent (Call.factory_got {p}) h = (factory-IsConsistent otel_enabled p h).0
  Call-IsConsistent (Call.engine_disposed {p}) h = dispose-IsConsistent p h
  Call-IsConsistent (Call.client_got {p}) h = client-IsConsistent p h
  Call-IsConsistent (Call.client_closed {p}) h = close-IsConsistent p h
  Call-IsConsistent (Call.client_reset {p}) h = reset-IsConsistent p h
  Call-IsConsistent (Call.database_checked s {p}) h = database-IsConsistent s p h
  Call-IsConsistent (Call.redis_checked r {p}) h = redis-IsConsistent r p h
  Call-IsConsistent (Call.process_shut_down {p}) h =
      dispose-IsConsistent (close_redis_client p) (close-IsConsistent p h)

  Reachable-IsConsistent : {p : Process} → Reachable otel_enabled p → IsConsistent p
  Reachable-IsConsistent Reachable.started = initial-IsConsistent
  Reachable-IsConsistent (Reachable.after past call) =
      Call-IsConsistent call (Reachable-IsConsistent past)

  -- After any calls, in any order, the factory of sessions that a caller gets is bound to the engine that is
  -- in use, and that engine was never disposed of.
  pub get_session_factory-live :
      (p : Process)
      → Reachable otel_enabled p
      → let (bound_to, q) = get_session_factory otel_enabled p in
        (q.engine ≡ some bound_to) × All (λ m. (m == bound_to) ≡ false) q.disposed
  get_session_factory-live p past =
      let (kept, engine) = factory-IsConsistent otel_enabled p (Reachable-IsConsistent past) in
      (
        engine,
        subst (λ e. IsUnlisted e (get_session_factory otel_enabled p).1.disposed) engine
            kept.engine_live,
      )

  unlistened :
      (p : Process)
      → p.metrics_instrumented ≡ true
      → p.engine ≡ none
      → (get_engine otel_enabled p).1.listened ≡ p.listened
  unfolding get_engine instrument_sqlalchemy_engine instrument_sqlalchemy
  unlistened p flag gone = ground arith

  -- An engine that is made after the first one was disposed of is not measured: the flag that the first one
  -- set is never taken back, and the listeners belong to one engine.
  pub get_engine-unlistened :
      (p : Process)
      → Reachable otel_enabled p
      → p.metrics_instrumented ≡ true
      → p.engine ≡ none
      → let (engine, q) = get_engine otel_enabled p in
        (q.engine ≡ some engine) × All (λ m. (m == engine) ≡ false) q.listened
  get_engine-unlistened p past flag gone =
      let sound = Reachable-IsConsistent past in
      let (answer, engine, _, _, _, _, _, _, _) = engine_created otel_enabled p gone in
      (
        rw answer engine,
        rw (answer, unlistened p flag gone)
            (fresh-IsUnlisted p.engines_made p.listened sound.listened_made),
      )
