-- ===== src/Errors.antt =====
-- The exceptions of app/core/exceptions.py with the reply that each stands for, and the others that
-- a service can raise.
use loglens_api.Base.{ℕ, Bool, ◌++◌}
use loglens_api.Text.{Text, codes}

-- The subclasses of `AppError`, with what their constructors take.
pub data AppError : Type 0 where
  service_unavailable : Text → AppError
  authentication_error : Text → AppError
  authorization_error : Text → AppError
  inactive_user_error : AppError
  duplicate_email_error : AppError
  rate_limit_exceeded_error : AppError
  conflict_error : Text → AppError
  not_found_error : Text → AppError
  -- `ServiceUnavailableError` with the checks of the database and of Redis as its details.
  not_ready : Bool → Bool → AppError

pub data Error : Type 0 where
  app_error : AppError → Error
  -- FastAPI's `HTTPException`, with its status and detail.
  http_exception : ℕ → Text → Error
  integrity_error value_error overflow_error key_error assertion_error attribute_error : Error
  validation_error provider_error invalid_hash_error redis_failure : Error

unfoldable pub status_code : AppError → ℕ
status_code (service_unavailable m) = 503
status_code (authentication_error m) = 401
status_code (authorization_error m) = 403
status_code inactive_user_error = 403
status_code duplicate_email_error = 409
status_code rate_limit_exceeded_error = 429
status_code (conflict_error m) = 409
status_code (not_found_error r) = 404
status_code (not_ready d r) = 503

unfoldable pub error_code : AppError → Text
error_code (service_unavailable m) = codes "service_unavailable"
error_code (authentication_error m) = codes "authentication_failed"
error_code (authorization_error m) = codes "forbidden"
error_code inactive_user_error = codes "inactive_user"
error_code duplicate_email_error = codes "email_already_registered"
error_code rate_limit_exceeded_error = codes "rate_limit_exceeded"
error_code (conflict_error m) = codes "conflict"
error_code (not_found_error r) = codes "not_found"
error_code (not_ready d r) = codes "service_unavailable"

unfoldable pub error_message : AppError → Text
error_message (service_unavailable m) = m
error_message (authentication_error m) = m
error_message (authorization_error m) = m
error_message inactive_user_error = codes "User account is disabled."
error_message duplicate_email_error = codes "Email already registered."
error_message rate_limit_exceeded_error = codes "Too many login attempts. Try again later."
error_message (conflict_error m) = m
error_message (not_found_error r) = r ++ codes " not found."
error_message (not_ready d r) = codes "One or more dependencies are unavailable."

-- `AuthenticationError()` with its default message.
abbrev pub bad_credentials : Error
bad_credentials = app_error (authentication_error (codes "Invalid email or password."))

abbrev pub not_found : Text → Error
not_found r = app_error (not_found_error r)

abbrev pub conflict : Text → Error
conflict m = app_error (conflict_error m)
