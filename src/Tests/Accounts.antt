-- ===== src/Tests/Accounts.antt =====
-- Accounts: registration, login, and the limiter.
use loglens_api.Base.{some, ◌+◌, ◌≡◌, refl, true, false, [], ◌∷◌, arith, inr}
use loglens_api.Text.{codes, text_eq, is_space, strip, lower, Text}
use loglens_api.Text.Decimal.{parse_int, str}
use loglens_api.Table.{find_first}
use loglens_api.Errors.{app_error, bad_credentials, duplicate_email_error}
use loglens_api.Effect.{ok, err, World, Env, redis_error}
use loglens_api.RateLimit.{redis_key, is_allowed, clear}
use loglens_api.RateLimit.Laws.{is_allowed-after_failures, count_of, after_failures}
use loglens_api.RateLimit.Windows.{Increments, increments, after_failures-unexpiring}
use loglens_api.Text.Laws.{text_eq_refl}
use loglens_api.Auth.{LoginRequest, normalize_email, register_user, login_user}
use loglens_api.Auth.Register.{
  UsersAreValid, register_user-new, register_user-UsersAreValid, register_user-twice,
}
use loglens_api.Auth.Login.{login_user-refused, login_user-opens_session, login_user-ok}
use loglens_api.Auth.{TokenResponse}
use loglens_api.Authorization.{get_current_user}
use loglens_api.Authorization.Bearer.{access_claims, login_user-authenticates}
use loglens_api.Tests.Sample.{
  world_in, env, world_of, db, active_token, ada, limiter, host, counters, lookup_counter,
}

program : Unit {0}
unfolding text_eq strip lower is_space find_first normalize_email redis_key parse_int str is_allowed
program = tt

abbrev home : World env
home = world_of (db (active_token ∷ []))

abbrev alan : Text
alan = codes "Alan@x.io "

home-UsersAreValid : UsersAreValid 2 home.working.users
unfolding program
home-UsersAreValid = record {
  distinct = (refl, tt);
  normal = (refl, tt);
  below = (omega arith, tt);
}

register_user-UsersAreValid_example :
    let w = (register_user env alan (codes "enigma") home).1 in
    UsersAreValid w.sequences.next_user w.working.users
register_user-UsersAreValid_example =
    register_user-UsersAreValid env alan (codes "enigma") home home-UsersAreValid

register_user-twice_example :
    (register_user env
      (codes "alan@X.io")
      (codes "other")
      (register_user env alan (codes "enigma") home).1).0
    ≡ err (app_error duplicate_email_error)
unfolding program
register_user-twice_example =
    register_user-twice env alan (codes "alan@X.io") (codes "enigma") (codes "other") home refl
      (register_user-new env alan (codes "enigma") home refl).0

abbrev good_login : LoginRequest
good_login = record { email = codes "Ada@x.io"; password = codes "correct horse" }

abbrev bad_login : LoginRequest
bad_login = record { email = codes "Ada@x.io"; password = codes "wrong horse" }

abbrev locked : World env
locked = record home { redis = (codes "auth:login_attempts:10.0.0.1:ada@x.io", 5) ∷ [] }

login_user-refused_example : (login_user env limiter bad_login host home).0 ≡ err bad_credentials
unfolding program
login_user-refused_example =
    (login_user-refused env limiter bad_login host home refl (inr (ada, refl, refl))).0

abbrev disabled : World env
disabled = world_of (record (db []) { users = record ada { is_active = false } ∷ [] })

-- An environment whose decoder knows ada's access token.
abbrev decoding : Env
decoding = record env { jwt_decode = λ now t k a. some (access_claims env 1 1000) }

abbrev decoding_home : World decoding
decoding_home = world_in decoding [] home.committed

login_user-authenticates_example :
    (answer : TokenResponse) × ((login_user decoding limiter good_login host decoding_home).0
      ≡ ok answer)
    × ((get_current_user decoding answer.access_token decoding_home).0 ≡ ok ada)
unfolding program
login_user-authenticates_example =
    login_user-authenticates decoding limiter good_login host decoding_home ada ada decoding_home
      (λ now in_time. refl) refl refl refl refl refl (omega arith) refl refl

login_user-ok_example : (is_allowed env limiter host home).0 ≡ ok true
unfolding program
login_user-ok_example =
    (login_user-ok env limiter good_login host home
      (login_user-opens_session env limiter good_login host home ada refl refl refl refl refl).0).0

is_allowed-after_failures_example :
    (is_allowed env limiter host
      (after_failures env limiter 5 host (clear env limiter host home).1)).0
    ≡ ok false
is_allowed-after_failures_example = is_allowed-after_failures env counters limiter 4 host home

abbrev broken : Env
broken = record env { redis_get = λ k r. (redis_error, r) }

abbrev broken_world : World broken
broken_world = world_in broken [] home.committed

-- An environment in which EXPIRE fails.
abbrev stalled : Env
stalled = record env { redis_expire = λ k seconds r. (redis_error, r) }

abbrev stalled_counters : Increments stalled
stalled_counters = record {
  view = λ r k. counters.view r k;
  incr_lem = λ k r. ((k, count_of (lookup_counter k r) + 1) ∷ r, refl, rw (text_eq_refl k) refl);
}

abbrev stalled_home : World stalled
stalled_home = world_in stalled [] home.committed

after_failures-unexpiring_example :
    after_failures stalled limiter 3 host stalled_home ≡ record stalled_home {
      redis = increments stalled stalled_counters limiter 2 host ((redis_key limiter host, 1) ∷ []);
    }
unfolding program
after_failures-unexpiring_example =
    after_failures-unexpiring stalled stalled_counters limiter 2 host stalled_home
      ((redis_key limiter host, 1) ∷ []) refl refl refl
