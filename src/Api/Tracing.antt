-- ===== src/Api/Tracing.antt =====
-- What every reply tells of its request.
use loglens_api.Base.{
  ◌<◌, ◌≡◌, refl, ap, ◌∙◌, Option, none, some, arith, ◌⊎◌, inl, inr, ◌≢◌, [], ◌∷◌,
}
use loglens_api.Text.{Text, codes}
use loglens_api.Models.{User}
use loglens_api.Models.Enums.{UserRole}
use loglens_api.Errors.{Error, AppError, status_code}
use loglens_api.Effect.{Env, World, Result, ok, err}
use loglens_api.Authorization.{get_current_user, require_admin_user}
use loglens_api.Api.{Request, Body}
use loglens_api.Api.Guards.{Requirement, admit}
use loglens_api.Api.Routes.{run}
use loglens_api.Api.Access.{requirement, run-refused}
use loglens_api.Api.Replies.{
  ErrorPayload, success, failure, Response, success_status, error_payload, error_status,
  is_unexpected, respond, request_id_of, dispatch,
}

success_status_bound : (r : Request) → success_status r < 300
unfolding success_status
success_status_bound r = ground arith

-- The reply carries the id in its header and, if it is an error, as its trace; the header is only
-- missing from an unexpected error, of which nothing is told.
abbrev pub IsTraced : Text → Response → Type 0
IsTraced id response =
    ((body : Body) × (response.payload ≡ success body)
      × (response.status < 300)
      × (response.request_id ≡ some id))
    ⊎ ((p : ErrorPayload) × (response.payload ≡ failure p)
        × (p.trace_id ≡ some id)
        × ((response.request_id ≡ some id)
            ⊎ ((response.status ≡ 500)
                × (response.request_id ≡ none)
                × (p.details ≡ none)
                × (p.message ≡ codes "An unexpected error occurred."))))

-- The id is the header that the client sent, which is not empty, or else a UUID drawn for the request.
abbrev pub IsIdOf : (env : Env) → Option Text → World env → Text → Type 0
IsIdOf env header w id =
    ((header ≡ some id) × (id ≢ []))
    ⊎ (((header ≡ none) ⊎ (header ≡ some [])) × (id ≡ env.uuid4 w.draws))

request_id_of-IsIdOf :
    (env : Env) (header : Option Text) (w : World env)
    → IsIdOf env header w (request_id_of env header w).0
unfolding request_id_of
request_id_of-IsIdOf env none w = inr (inl refl, refl)
request_id_of-IsIdOf env (some []) w = inr (inr refl, refl)
request_id_of-IsIdOf env (some (c ∷ s)) w = inl (refl, λ nil. cc)

error-IsTraced : (r : Request) (id : Text) (e : Error) → IsTraced id (respond r id (err e))
unfolding respond error_payload error_status is_unexpected
error-IsTraced r id (Error.app_error e) = inr (_, refl, refl, inl refl)
error-IsTraced r id (Error.http_exception status detail) = inr (_, refl, refl, inl refl)
error-IsTraced r id Error.integrity_error = inr (_, refl, refl, inr (refl, refl, refl, refl))
error-IsTraced r id Error.value_error = inr (_, refl, refl, inr (refl, refl, refl, refl))
error-IsTraced r id Error.overflow_error = inr (_, refl, refl, inr (refl, refl, refl, refl))
error-IsTraced r id Error.key_error = inr (_, refl, refl, inr (refl, refl, refl, refl))
error-IsTraced r id Error.assertion_error = inr (_, refl, refl, inr (refl, refl, refl, refl))
error-IsTraced r id Error.attribute_error = inr (_, refl, refl, inr (refl, refl, refl, refl))
error-IsTraced r id Error.validation_error = inr (_, refl, refl, inr (refl, refl, refl, refl))
error-IsTraced r id Error.provider_error = inr (_, refl, refl, inr (refl, refl, refl, refl))
error-IsTraced r id Error.invalid_hash_error = inr (_, refl, refl, inr (refl, refl, refl, refl))
error-IsTraced r id Error.redis_failure = inr (_, refl, refl, inr (refl, refl, refl, refl))

respond-IsTraced :
    (r : Request) (id : Text) (answer : Result Body) → IsTraced id (respond r id answer)
unfolding respond
respond-IsTraced r id (ok body) = inl (body, refl, success_status_bound r, refl)
respond-IsTraced r id (err e) = error-IsTraced r id e

forbidden :
    (env : Env) (token : Text) (w : World env) {user : User}
    → (get_current_user env token w).0 ≡ ok user
    → user.role ≡ UserRole.developer
    → (admit env Requirement.admin_only (some token) w).0
      ≡ err (Error.app_error (AppError.authorization_error (codes "Admin privileges required.")))
unfolding admit require_admin_user
forbidden env token w current developer = ground arith

module _ (env : Env) (header : Option Text) (r : Request) (w : World env) where
  abbrev id : Text
  id = (request_id_of env header w).0

  -- Every request has an id: the one that the client gave if it gave one that is not empty, and else a
  -- UUID drawn for the request. The reply is a success with a status below 300, or an error: both carry
  -- the id as the header, and an error also as its trace. The header is missing from an unexpected error
  -- alone, which has status 500 and tells no details.
  pub dispatch-IsTraced :
      (id : Text) × IsIdOf env header w id × IsTraced id (dispatch env header r w).0
  unfolding dispatch
  dispatch-IsTraced = (
    id,
    request_id_of-IsIdOf env header w,
    respond-IsTraced r id (run env r (request_id_of env header w).1).0,
  )

  request_id-keeps :
      ((request_id_of env header w).1.committed ≡ w.committed)
      × ((request_id_of env header w).1.working ≡ w.working)
      × ((request_id_of env header w).1.queue ≡ w.queue)
  unfolding request_id_of
  request_id-keeps = (ground arith, ground arith, ground arith)

  -- What `dispatch` makes of a refusal.
  dispatch-refused :
      {q : Requirement} {b : Option Text} {e : Error}
      → requirement r ≡ some (q, b)
      → (admit env q b (request_id_of env header w).1).0 ≡ err e
      → let (response, w') = dispatch env header r w in
        (response.status ≡ error_status e) × (w'.committed ≡ w.committed) × (w'.queue ≡ w.queue)
  unfolding dispatch respond
  dispatch-refused needs refused =
      let (answer, tables, queue) =
        run-refused env r (request_id_of env header w).1 needs refused in
      let (same, _, same_queue) = request_id-keeps in
      (ap (λ a. (respond r id a).status) answer, tables ∙ same, queue ∙ same_queue)

  -- Without a token, a route that has a requirement replies 401 and changes no table and queues no task.
  pub dispatch-unauthenticated :
      {q : Requirement}
      → requirement r ≡ some (q, none)
      → let (response, w') = dispatch env header r w in
        (response.status ≡ 401) × (w'.committed ≡ w.committed) × (w'.queue ≡ w.queue)
  unfolding admit error_status
  dispatch-unauthenticated needs = dispatch-refused needs refl

  -- A developer's request for a route of administrators replies 403 and changes no table and queues no
  -- task.
  pub dispatch-forbidden :
      (token : Text) {user : User}
      → requirement r ≡ some (Requirement.admin_only, some token)
      → (get_current_user env token (request_id_of env header w).1).0 ≡ ok user
      → user.role ≡ UserRole.developer
      → let (response, w') = dispatch env header r w in
        (response.status ≡ 403) × (w'.committed ≡ w.committed) × (w'.queue ≡ w.queue)
  unfolding error_status status_code
  dispatch-forbidden token needs current developer =
      dispatch-refused needs (forbidden env token (request_id_of env header w).1 current developer)
