-- ===== src/Tests/Sessions.antt =====
-- Sessions: rotation, reuse, and logging out.
use loglens_api.Base.{◌≡◌, ◌≢◌, refl, [], ◌∷◌, arith}
use loglens_api.Text.{codes, text_eq, is_space, strip}
use loglens_api.Text.Decimal.{pos, parse_int}
use loglens_api.Table.{find_first, update_where}
use loglens_api.Clock.{as_utc_aware}
use loglens_api.Errors.{bad_credentials}
use loglens_api.Effect.{ok, err, World}
use loglens_api.Security.{
  decode_refresh_token, create_refresh_token, create_access_token, refresh_signing_key,
}
use loglens_api.Auth.{rotate, get_refresh_token_record, refresh_session, logout, logout_all}
use loglens_api.Repositories.Users.{get_by_id}
use loglens_api.Repositories.RefreshTokens.{get_by_jti_hash, revoke_token, create_token}
use loglens_api.Auth.Tokens.{claims_of, presented}
use loglens_api.Auth.Refresh.{refresh_session-reuse}
use loglens_api.Auth.Rotation.{rotation_answer, refresh_session-rotates, refresh_session-single_use}
use loglens_api.Auth.Accepts.{MayRefresh, refresh_session-ok}
use loglens_api.Auth.Logout.{logout-ends_session, logout_all-ends_sessions}
use loglens_api.Tests.Sample.{
  env, world_of, db, active_token, spent_token, child_token, other_token, ada, token,
}

program : Unit {0}
unfolding presented claims_of text_eq parse_int strip is_space find_first as_utc_aware
    refresh_signing_key
program = tt

abbrev fresh_world : World env
fresh_world = world_of (db (active_token ∷ other_token ∷ []))

abbrev spent_world : World env
spent_world = world_of (db (spent_token ∷ child_token ∷ other_token ∷ []))

refresh_session-reuse_example : (refresh_session env token spent_world).0 ≡ err bad_credentials
unfolding program
refresh_session-reuse_example =
    (refresh_session-reuse env token spent_world {t = spent_token} {user_id = pos 1}
      {family_id = codes "f"} refl 900000 refl (omega arith) refl refl).0

refresh_session-rotates_example :
    (refresh_session env token fresh_world).0 ≡ ok (rotation_answer env fresh_world 1 (codes "f"))
unfolding program
refresh_session-rotates_example =
    (refresh_session-rotates env token fresh_world {t = active_token} {user_id = pos 1} {c = b'f'}
      {s = []} refl 900000 refl (omega arith) refl ada refl refl refl).0

rotated_readings : (refresh_session env token fresh_world).1.readings ≡ 5
unfolding program refresh_session rotate get_refresh_token_record decode_refresh_token
    get_by_jti_hash get_by_id create_refresh_token create_access_token revoke_token create_token
    update_where
rotated_readings = refl

refresh_session-single_use_example :
    (refresh_session env token (refresh_session env token fresh_world).1).0 ≡ err bad_credentials
unfolding program
refresh_session-single_use_example =
    (refresh_session-single_use env token fresh_world {t = active_token} {user_id = pos 1}
      {c = b'f'} {s = []} refl 900000 refl (omega arith) refl ada refl refl refl refl
      (omega (arith, rotated_readings))).0

refresh_session-ok_example : MayRefresh env token fresh_world
unfolding program
refresh_session-ok_example = refresh_session-ok env token fresh_world (
    (refresh_session-rotates env token fresh_world {t = active_token} {user_id = pos 1} {c = b'f'}
      {s = []} refl 900000 refl (omega arith) refl ada refl refl refl).0)

logout-ends_session_example :
    (refresh_session env token (logout env token fresh_world).1).0
    ≢ ok (rotation_answer env fresh_world 1 (codes "f"))
unfolding program
logout-ends_session_example =
    logout-ends_session env token fresh_world {t = active_token} {user_id = pos 1}
      {family_id = codes "f"} refl refl refl

logout_all-ends_sessions_example :
    (refresh_session env token (logout_all env 1 fresh_world).1).0
    ≢ ok (rotation_answer env fresh_world 1 (codes "f"))
unfolding program
logout_all-ends_sessions_example =
    logout_all-ends_sessions env token fresh_world 1 {t = active_token} {z = pos 1}
      {family_id = codes "f"} refl refl refl
