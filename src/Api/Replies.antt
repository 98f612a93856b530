-- ===== src/Api/Replies.antt =====
-- app/core/handlers.py and app/core/middleware.py: how a request is answered.
use loglens_api.Base.{ℕ, ◌+◌, Bool, true, false, Option, none, some, ◌∷◌, if◌then◌else◌}
use loglens_api.Text.{Text, codes}
use loglens_api.Errors.{Error, AppError, status_code, error_code, error_message}
use loglens_api.Effect.{Env, World, Result, ok, err}
use loglens_api.Api.{Request, Body}
use loglens_api.Api.Routes.{run}

-- The details of an error: the reason of an `HTTPException`, which resource was not found, or which
-- dependency is up.
pub data Details : Type 0 where
  reason resource : Text → Details
  checks : Bool → Bool → Details

-- `_error_payload`
pub record ErrorPayload : Type 0 where
  pub code : Text
  pub message : Text
  pub details : Option Details
  pub trace_id : Option Text

pub data Payload : Type 0 where
  success : Body → Payload
  failure : ErrorPayload → Payload

-- `request_id` is the header `X-Request-ID`.
pub record Response : Type 0 where
  pub status : ℕ
  pub payload : Payload
  pub request_id : Option Text

-- The status of a successful answer.
unfoldable pub success_status : Request → ℕ
success_status (Request.register email password) = 201
success_status (Request.create_log bearer payload) = 201
success_status (Request.create_bulk_logs bearer payload) = 202
success_status (Request.analyze_error_group bearer group_id) = 202
success_status (Request.delete_log bearer log_id) = 204
success_status _ = 200

abbrev error_details : AppError → Option Details
error_details (AppError.not_found_error r) = some (resource r)
error_details (AppError.not_ready d r) = some (checks d r)
error_details _ = none

-- `app_exception_handler`, `http_exception_handler` and `unexpected_exception_handler`
unfoldable pub error_payload : Text → Error → ErrorPayload
error_payload trace_id (Error.app_error e) = record {
  code = error_code e;
  message = error_message e;
  details = error_details e;
  trace_id = some trace_id;
}
error_payload trace_id (Error.http_exception status detail) = record {
  code = codes "http_error";
  message = codes "Request failed.";
  details = some (reason detail);
  trace_id = some trace_id;
}
error_payload trace_id e = record {
  code = codes "internal_server_error";
  message = codes "An unexpected error occurred.";
  details = none;
  trace_id = some trace_id;
}

unfoldable pub error_status : Error → ℕ
error_status (Error.app_error e) = status_code e
error_status (Error.http_exception status detail) = status
error_status e = 500

-- An exception that only the handler for `Exception` takes passes through the middleware, which then
-- sets no header.
unfoldable pub is_unexpected : Error → Bool
is_unexpected (Error.app_error e) = false
is_unexpected (Error.http_exception status detail) = false
is_unexpected e = true

unfoldable pub respond : Request → Text → Result Body → Response
respond request id (ok body) = record {
  status = success_status request;
  payload = success body;
  request_id = some id;
}
respond request id (err e) = record {
  status = error_status e;
  payload = failure (error_payload id e);
  request_id = if is_unexpected e then none else some id;
}

module _ (env : Env) where
  -- `request.headers.get("X-Request-ID") or str(uuid.uuid4())`
  unfoldable pub request_id_of : Option Text → World env → Text × World env
  request_id_of (some (c ∷ s)) w = (c ∷ s, w)
  request_id_of _ w = (env.uuid4 w.draws, record w { draws = w.draws + 1 })

  -- `RequestContextMiddleware.dispatch`, around the route and the handlers.
  unfoldable pub dispatch : Option Text → Request → World env → Response × World env
  dispatch header request w =
      let (id, w') = request_id_of header w in
      let (answer, w'') = run env request w' in (respond request id answer, w'')
