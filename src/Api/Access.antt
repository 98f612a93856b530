-- ===== src/Api/Access.antt =====
-- Who may use which route: the table of API_SPEC.md, and what the routes make of it.
use loglens_api.Base.{
  ◌≡◌, refl, sym, subst, ap, ◌∙◌, ◌⊎◌, true, Option, none, some, arith, inl, inr,
}
use loglens_api.Text.{Text}
use loglens_api.Text.Decimal.{ℤ, parse_int}
use loglens_api.Table.{find_first}
use loglens_api.Models.{User}
use loglens_api.Models.Enums.{UserRole}
use loglens_api.Errors.{Error}
use loglens_api.Effect.{Env, World, Action, Result, ok, err}
use loglens_api.Effect.Laws.{bind-err}
use loglens_api.Security.{decode_access_token}
use loglens_api.Repositories.Users as user_repo
use loglens_api.Repositories.Users.{same_id}
use loglens_api.Users.{get_user_by_id}
use loglens_api.Authorization.{get_current_user, require_admin_user, require_developer_or_admin}
use loglens_api.Authorization.Roles.{subject, get_current_user-ok, require_admin_user-ok}
use loglens_api.Workers.{session_scope}
use loglens_api.Api.{Request, Body}
use loglens_api.Api.Guards.{Requirement, check, admit, admitted}
use loglens_api.Api.SystemRoutes.{get_job_status_route, get_analytics_summary_route}
use loglens_api.Api.AuthRoutes.{logout_all_route, me_route}
use loglens_api.Api.LogRoutes.{
  create_log_route, create_bulk_logs_route, list_logs_route, get_log_route, delete_log_route,
}
use loglens_api.Api.GroupRoutes.{
  list_error_groups_route, get_error_group_route, update_error_group_status_route,
  update_error_group_assignment_route, analyze_error_group_route,
  get_latest_error_group_analysis_route, list_error_group_analyses_route,
}
use loglens_api.Api.UserRoutes.{list_users_route, update_user_role_route, update_user_status_route}
use loglens_api.Api.Routes.{handle, run}

-- API_SPEC.md: the requirement of a route, with the token of the request. The routes under `none` are open.
unfoldable pub requirement : Request → Option (Requirement × Option Text)
requirement (Request.logout_all b) = some (Requirement.authenticated, b)
requirement (Request.me b) = some (Requirement.authenticated, b)
requirement (Request.create_log b p) = some (Requirement.developer_or_admin, b)
requirement (Request.create_bulk_logs b p) = some (Requirement.developer_or_admin, b)
requirement (Request.list_logs b q) = some (Requirement.developer_or_admin, b)
requirement (Request.get_log b i) = some (Requirement.developer_or_admin, b)
requirement (Request.delete_log b i) = some (Requirement.admin_only, b)
requirement (Request.list_error_groups b q) = some (Requirement.developer_or_admin, b)
requirement (Request.get_error_group b i) = some (Requirement.developer_or_admin, b)
requirement (Request.update_error_group_status b i s) = some (Requirement.admin_only, b)
requirement (Request.update_error_group_assignment b i z) = some (Requirement.developer_or_admin, b)
requirement (Request.analyze_error_group b i) = some (Requirement.developer_or_admin, b)
requirement (Request.get_latest_error_group_analysis b i) = some (Requirement.developer_or_admin, b)
requirement (Request.list_error_group_analyses b i) = some (Requirement.developer_or_admin, b)
requirement (Request.list_users b) = some (Requirement.admin_only, b)
requirement (Request.update_user_role b i r) = some (Requirement.admin_only, b)
requirement (Request.update_user_status b i a) = some (Requirement.admin_only, b)
requirement (Request.get_job_status b i) = some (Requirement.developer_or_admin, b)
requirement (Request.get_analytics_summary b) = some (Requirement.developer_or_admin, b)
requirement _ = none

-- What goes before an answer gave a value.
first_ok :
    {env : Env} {A B : Type 0} (r : Result A) (w : World env) (rest : A → Action env B) {b : B}
    → (elim r as (λ _. Result B × World env) [ ok a ↦ rest a w | err e ↦ (err e, w) ]).0 ≡ ok b
    → (a : A) × (r ≡ ok a)
first_ok (ok a) w rest h = (a, refl)
first_ok (err e) w rest h = cc

module _ (env : Env) where
  -- The route begins with the check of the requirement.
  abbrev Admits : Request → Option (Requirement × Option Text) → Type 0
  Admits r none = Unit
  Admits r (some (q, b)) =
      (rest : User → Action env Body) × (run env r ≡ session_scope (admitted env q b rest))

  run-Admits : (r : Request) → Admits r (requirement r)
  unfolding requirement run handle get_job_status_route get_analytics_summary_route logout_all_route
      me_route create_log_route create_bulk_logs_route list_logs_route get_log_route
      delete_log_route list_error_groups_route get_error_group_route update_error_group_status_route
      update_error_group_assignment_route analyze_error_group_route
      get_latest_error_group_analysis_route list_error_group_analyses_route list_users_route
      update_user_role_route update_user_status_route
  run-Admits Request.health = tt
  run-Admits Request.ready = tt
  run-Admits (Request.register e p) = tt
  run-Admits (Request.login h p) = tt
  run-Admits (Request.login_for_access_token h u p) = tt
  run-Admits (Request.refresh t) = tt
  run-Admits (Request.logout t) = tt
  run-Admits (Request.logout_all b) = (_, refl)
  run-Admits (Request.me b) = (_, refl)
  run-Admits (Request.create_log b p) = (_, refl)
  run-Admits (Request.create_bulk_logs b p) = (_, refl)
  run-Admits (Request.list_logs b q) = (_, refl)
  run-Admits (Request.get_log b i) = (_, refl)
  run-Admits (Request.delete_log b i) = (_, refl)
  run-Admits (Request.list_error_groups b q) = (_, refl)
  run-Admits (Request.get_error_group b i) = (_, refl)
  run-Admits (Request.update_error_group_status b i s) = (_, refl)
  run-Admits (Request.update_error_group_assignment b i z) = (_, refl)
  run-Admits (Request.analyze_error_group b i) = (_, refl)
  run-Admits (Request.get_latest_error_group_analysis b i) = (_, refl)
  run-Admits (Request.list_error_group_analyses b i) = (_, refl)
  run-Admits (Request.list_users b) = (_, refl)
  run-Admits (Request.update_user_role b i r) = (_, refl)
  run-Admits (Request.update_user_status b i a) = (_, refl)
  run-Admits (Request.get_job_status b i) = (_, refl)
  run-Admits (Request.get_analytics_summary b) = (_, refl)

  -- What a requirement says of the user.
  abbrev pub Meets : Requirement → User → Type 0
  Meets Requirement.admin_only user = user.role ≡ UserRole.admin
  Meets Requirement.developer_or_admin user =
      (user.role ≡ UserRole.admin) ⊎ (user.role ≡ UserRole.developer)
  Meets Requirement.authenticated user = Unit

  either_role : (r : UserRole) → (r ≡ UserRole.admin) ⊎ (r ≡ UserRole.developer)
  either_role UserRole.admin = inl refl
  either_role UserRole.developer = inr refl

  developer-current :
      (token : Text) (w : World env) {user : User}
      → (require_developer_or_admin env token w).0 ≡ ok user
      → (get_current_user env token w).0 ≡ ok user
  unfolding require_developer_or_admin
  developer-current token w h = ground arith

  check-ok :
      (q : Requirement) (token : Text) (w : World env) {user : User}
      → (check env q token w).0 ≡ ok user
      → ((get_current_user env token w).0 ≡ ok user) × Meets q user
  check-ok Requirement.authenticated token w h = (h, tt)
  check-ok Requirement.developer_or_admin token w {user} h =
      (developer-current token w h, either_role user.role)
  check-ok Requirement.admin_only token w h = require_admin_user-ok env token w h

  admit-ok :
      (q : Requirement) (b : Option Text) (w : World env) {user : User}
      → (admit env q b w).0 ≡ ok user
      → (token : Text) × (b ≡ some token) × ((check env q token w).0 ≡ ok user)
  unfolding admit
  admit-ok q none w h = cc
  admit-ok q (some token) w h = (token, refl, h)

  -- Checking a user changes neither the tables nor the queue.
  admit-keeps :
      (q : Requirement) (b : Option Text) (w : World env)
      → ((admit env q b w).1.committed ≡ w.committed) × ((admit env q b w).1.queue ≡ w.queue)
  unfolding admit require_admin_user require_developer_or_admin get_current_user decode_access_token
      get_user_by_id user_repo.get_by_id
  admit-keeps q none w = (refl, refl)
  admit-keeps Requirement.authenticated (some token) w = (ground arith, ground arith)
  admit-keeps Requirement.developer_or_admin (some token) w = (ground arith, ground arith)
  admit-keeps Requirement.admin_only (some token) w = (ground arith, ground arith)

  admitted-ok :
      (q : Requirement) (b : Option Text) (rest : User → Action env Body) (w : World env)
      {body : Body}
      → (admitted env q b rest w).0 ≡ ok body
      → (user : User) × ((admit env q b w).0 ≡ ok user)
  unfolding admitted
  admitted-ok q b rest w h = first_ok (admit env q b w).0 (admit env q b w).1 rest h

  -- A route that has a requirement is only answered for the account that is the subject of the
  -- request's token, if that account is enabled and has a role that the requirement allows.
  pub run-allowed :
      (r : Request) (w : World env) {q : Requirement} {b : Option Text} {body : Body}
      → requirement r ≡ some (q, b)
      → (run env r w).0 ≡ ok body
      → (token : Text) × (s : Text) × (z : ℤ) × (user : User) × (b ≡ some token)
        × (subject env token w ≡ some s)
        × (parse_int s ≡ some z)
        × (find_first (λ u. same_id u.id z) w.working.users ≡ some user)
        × (user.is_active ≡ true)
        × Meets q user
  run-allowed r w {q = q} {b = b} needs answered =
      let (rest, runs) = subst (Admits r) needs (run-Admits r) in
      let (user, admits) = admitted-ok q b rest w (ap (λ m. (m w).0) (sym runs) ∙ answered) in
      let (token, sent, checked) = admit-ok q b w admits in
      let (current, meets) = check-ok q token w checked in
      let (s, z, is_subject, parsed, found, active) = get_current_user-ok env token w current in
      (token, s, z, user, sent, is_subject, parsed, found, active, meets)

  -- A request whose token, or its user, does not meet the requirement of the route is answered with the
  -- error of the check, and it leaves the committed tables and the queue of tasks as they were.
  pub run-refused :
      (r : Request) (w : World env) {q : Requirement} {b : Option Text} {e : Error}
      → requirement r ≡ some (q, b)
      → (admit env q b w).0 ≡ err e
      → let (answer, w') = run env r w in
        (answer ≡ err e) × (w'.committed ≡ w.committed) × (w'.queue ≡ w.queue)
  unfolding admitted
  run-refused r w {q = q} {b = b} {e = e} needs refused =
      let (rest, runs) = subst (Admits r) needs (run-Admits r) in
      let stops = bind-err (admit env q b) rest w (ap (λ a. (a, (admit env q b w).1)) refused) in
      let (tables, queue) = admit-keeps q b w in
      (
        ap (λ m. (m w).0) runs ∙ ap (λ o. o.0) stops,
        ap (λ m. (m w).1.committed) runs ∙ ap (λ o. o.1.committed) stops ∙ tables,
        ap (λ m. (m w).1.queue) runs ∙ ap (λ o. o.1.queue) stops ∙ queue,
      )
