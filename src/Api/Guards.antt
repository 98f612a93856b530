-- ===== src/Api/Guards.antt =====
-- app/api/dependencies/auth.py, as the routes depend on it, and the tasks that they hand over.
use loglens_api.Base.{Option, none, some, [], ◌∷◌, ◌++◌}
use loglens_api.Text.{Text, codes}
use loglens_api.Models.{User}
use loglens_api.Errors.{Error}
use loglens_api.Effect.{Env, Action, ok, pure, raise, ◌>>=◌, QueuedTask}
use loglens_api.Authorization.{get_current_user, require_admin_user, require_developer_or_admin}
use loglens_api.Api.{Body}

-- The dependency that a route asks for.
pub data Requirement : Type 0 where
  authenticated developer_or_admin admin_only : Requirement

-- `task.delay(job_id)`
unfoldable pub delay : {env : Env} → QueuedTask → Action env (Unit {0})
delay task w = (ok tt, record w { queue = w.queue ++ task ∷ [] })

module _ (env : Env) where
  -- `OAuth2PasswordBearer`
  abbrev pub bearer_token : Option Text → Action env Text
  bearer_token none = raise (Error.http_exception 401 (codes "Not authenticated"))
  bearer_token (some token) = pure token

  abbrev pub check : Requirement → Text → Action env User
  check Requirement.authenticated token = get_current_user env token
  check Requirement.developer_or_admin token = require_developer_or_admin env token
  check Requirement.admin_only token = require_admin_user env token

  unfoldable pub admit : Requirement → Option Text → Action env User
  admit requirement bearer = do token ← bearer_token bearer; check requirement token

  -- A route that depends on the user of the request.
  unfoldable pub admitted : Requirement → Option Text → (User → Action env Body) → Action env Body
  admitted requirement bearer route = do current_user ← admit requirement bearer; route current_user
