-- ===== src/Tests/Administration.antt =====
-- Changes of accounts and of groups.
use loglens_api.Base.{◌≡◌, ◌≢◌, refl, true, false, [], ◌∷◌, some, none, ◌⊎◌}
use loglens_api.Text.{Text, codes, text_eq, strip, is_space}
use loglens_api.Text.Decimal.{ℤ, pos, parse_int}
use loglens_api.Table.{find_first, update_where}
use loglens_api.Clock.{as_utc_aware}
use loglens_api.Models.{User}
use loglens_api.Models.Enums.{UserRole}
use loglens_api.Effect.{ok, World}
use loglens_api.Security.{
  access_signing_key, decode_access_token, decode_refresh_token, refresh_signing_key,
}
use loglens_api.Repositories.Users as user_repo
use loglens_api.Repositories.Users.{same_id}
use loglens_api.Repositories.ErrorGroups as group_repo
use loglens_api.Auth.{refresh_session}
use loglens_api.Auth.Tokens.{presented, claims_of}
use loglens_api.Auth.Rotation.{rotation_answer}
use loglens_api.Users.{get_user_by_id, update_user_status}
use loglens_api.Users.Disabling.{update_user_status-ends_sessions}
use loglens_api.ErrorGroups.{get_error_group, update_assignment}
use loglens_api.ErrorGroups.Changes.{assign, update_assignment-allowed}
use loglens_api.Authorization.{get_current_user, require_admin_user}
use loglens_api.Tests.Sample.{env, world_of, db, ada, token, active_token, outage}

program : Unit {0}
unfolding access_signing_key decode_access_token get_user_by_id get_current_user require_admin_user
    text_eq find_first update_where parse_int strip is_space refresh_signing_key as_utc_aware
    decode_refresh_token presented claims_of update_user_status user_repo.get_by_id
    user_repo.update_status get_error_group update_assignment group_repo.get_by_id
    group_repo.update_assignment
program = tt

abbrev office : World env
office = world_of (record (db (active_token ∷ [])) { error_groups = outage ∷ [] })

update_user_status-ends_sessions_example :
    (refresh_session env token (update_user_status env (pos 1) false office).1).0
    ≢ ok (rotation_answer env office 1 (codes "f"))
unfolding program
update_user_status-ends_sessions_example =
    update_user_status-ends_sessions env (pos 1) office token {u = ada} {t = active_token}
      {family_id = codes "f"} refl refl

update_assignment-allowed_example :
    (ada.role ≡ UserRole.admin)
    ⊎ ((some (pos 1) ≡ none) ⊎ ((n : ℤ) × (some (pos 1) ≡ some n) × (same_id 1 n ≡ true)))
unfolding program
update_assignment-allowed_example =
    update_assignment-allowed env (pos 4) ada office {answer = assign (some 1) 1000 outage}
      (some (pos 1)) refl

abbrev access : Text
access = codes "access-1"

abbrev root : User
root = record ada { role = UserRole.admin }

abbrev admin_office : World env
admin_office = world_of (record (db []) { users = root ∷ [] })
