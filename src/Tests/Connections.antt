-- ===== src/Tests/Connections.antt =====
-- A process that was shut down and used again.
use loglens_api.Base.{◌≡◌, refl, true, false, some, [], ◌∷◌, All, ◌==◌}
use loglens_api.Connections.{
  Process, initial, get_engine, get_session_factory, dispose_engine, instrument_sqlalchemy_engine,
  instrument_sqlalchemy,
}
use loglens_api.Connections.Lifetimes.{
  Call, Reachable, get_session_factory-live, get_engine-unlistened,
}

program : Unit {0}
unfolding get_engine get_session_factory dispose_engine instrument_sqlalchemy_engine
    instrument_sqlalchemy
program = tt

abbrev used : Process
used = (get_session_factory true initial).1

abbrev given_up : Process
given_up = dispose_engine used

abbrev given_up-Reachable : Reachable true given_up
given_up-Reachable =
    Reachable.after (Reachable.after Reachable.started Call.factory_got) Call.engine_disposed

second_engine :
    ((get_engine true given_up).0 ≡ 1)
    × ((get_engine true given_up).1.listened ≡ 0 ∷ [])
    × (given_up.disposed ≡ 0 ∷ [])
unfolding program
second_engine = (refl, refl, refl)

get_session_factory-live_example :
    let (bound_to, q) = get_session_factory true given_up in
    (q.engine ≡ some bound_to) × All (λ m. (m == bound_to) ≡ false) q.disposed
get_session_factory-live_example = get_session_factory-live true given_up given_up-Reachable

get_engine-unlistened_example :
    let (engine, q) = get_engine true given_up in
    (q.engine ≡ some engine) × All (λ m. (m == engine) ≡ false) q.listened
unfolding program
get_engine-unlistened_example = get_engine-unlistened true given_up given_up-Reachable refl refl
