-- ===== src/Tests/Requests.antt =====
-- Requests of a developer, and of nobody.
use loglens_api.Base.{◌≡◌, refl, true, some, none, [], ◌∷◌}
use loglens_api.Text.{Text, codes, text_eq, strip, is_space}
use loglens_api.Text.Decimal.{ℤ, pos, parse_int}
use loglens_api.Table.{find_first}
use loglens_api.Models.{User}
use loglens_api.Effect.{World}
use loglens_api.Security.{access_signing_key, decode_access_token}
use loglens_api.Repositories.Users as user_repo
use loglens_api.Repositories.Users.{same_id}
use loglens_api.Users.{get_user_by_id}
use loglens_api.Authorization.{get_current_user}
use loglens_api.Authorization.Roles.{subject}
use loglens_api.Api.{Request}
use loglens_api.Api.Guards.{Requirement, admit, admitted}
use loglens_api.Api.AuthRoutes.{me_route}
use loglens_api.Api.LogRoutes.{delete_log_route}
use loglens_api.Api.Routes.{handle, run}
use loglens_api.Api.Access.{requirement, Meets, run-allowed}
use loglens_api.Api.Replies.{dispatch, request_id_of}
use loglens_api.Api.Tracing.{IsIdOf, IsTraced, dispatch-IsTraced, dispatch-forbidden}
use loglens_api.Tests.Sample.{env, world_of, db, ada}

program : Unit {0}
unfolding text_eq strip is_space find_first parse_int access_signing_key decode_access_token
    get_user_by_id user_repo.get_by_id get_current_user admit admitted me_route delete_log_route
    handle run requirement request_id_of
program = tt

abbrev desk : World env
desk = world_of (db [])

abbrev access : Text
access = codes "access-1"

-- Who am I?
abbrev who : Request
who = Request.me (some access)

-- A deletion that a developer may not do.
abbrev deletion : Request
deletion = Request.delete_log (some access) (pos 3)

run-allowed_example :
    (token : Text) × (s : Text) × (z : ℤ) × (user : User) × (some access ≡ some token)
    × (subject env token desk ≡ some s)
    × (parse_int s ≡ some z)
    × (find_first (λ u. same_id u.id z) (ada ∷ []) ≡ some user)
    × (user.is_active ≡ true)
    × Meets env Requirement.authenticated user
unfolding program
run-allowed_example = run-allowed env who desk refl refl

dispatch-IsTraced_example :
    (id : Text) × IsIdOf env none desk id × IsTraced id (dispatch env none deletion desk).0
dispatch-IsTraced_example = dispatch-IsTraced env none deletion desk

dispatch-forbidden_example :
    let (response, w') = dispatch env none deletion desk in
    (response.status ≡ 403) × (w'.committed ≡ desk.committed) × (w'.queue ≡ desk.queue)
unfolding program
dispatch-forbidden_example = dispatch-forbidden env none deletion desk access refl refl refl
