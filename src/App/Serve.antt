-- ===== src/App/Serve.antt =====
-- A request from its arrival to its answer: the check of the caller (app/core/auth.py), the rendering
-- of exceptions (app/api/error_handlers.py) and the identifier of the request
-- (app/core/middleware.py).
use seemsim_esim_gateway.Prelude.{String, Option, none, some, [], ◌∷◌, if◌then◌else◌, ◌==◌}
use seemsim_esim_gateway.Errors.{Exception, app, builtin, error_response}
use seemsim_esim_gateway.Exec.{Exec, Result, ok, err, raise}
use seemsim_esim_gateway.Python.Runtime.{Runtime}
use seemsim_esim_gateway.Redis.{Redis}
use seemsim_esim_gateway.Idempotency.{IdempotencyRecord}
use seemsim_esim_gateway.Auth.{Registry, require_scope}
use seemsim_esim_gateway.Providers.Base.{BaseEsimProvider}
use seemsim_esim_gateway.App.Routes.{Request, scope_of}
use seemsim_esim_gateway.App.Endpoints.{Service, Settings, error, Reply, handle}

-- What the caller gets, with the header `X-Request-ID`.
pub record Answer : Type 0 where
  pub reply : Reply
  pub request_id : Option String

-- `request.headers.get("X-Request-ID") or generate_request_id()`
abbrev pub request_id_of : Option String → String → String
request_id_of none generated = generated
request_id_of (some s) generated = if s == "" then generated else s

abbrev pub failed : Exception → Reply
failed e =
    let response = error_response e in
    record { status = response.status; body = error response.content }

-- `dispatch` around the handlers of the application's errors; an exception of another class passes
-- through it, and its response has no identifier.
unfoldable pub answered : String → Result Reply → Answer
answered id (ok reply) = record { reply = reply; request_id = some id }
answered id (err (app c detail)) = record { reply = failed (app c detail); request_id = some id }
answered id (err (builtin name text)) = record {
  reply = failed (builtin name text);
  request_id = none;
}

-- The dependency on the scope of an endpoint.
unfoldable pub authorised : Option String → Registry → Option String → Result (Unit {0})
authorised none registry credentials = ok tt
authorised (some scope) registry credentials =
    elim (require_scope (scope ∷ []) registry credentials) [ ok caller ↦ ok tt | err e ↦ err e ]

-- An endpoint runs after the dependency on its scope.
abbrev pub admit : {S : Type 0} → Result (Unit {0}) → Exec S Reply → Exec S Reply
admit (ok _) endpoint = endpoint
admit (err e) endpoint = raise e

module _ (keys : Redis IdempotencyRecord) (locks : Redis String) (settings : Settings)
    (rt : Runtime) (provider : BaseEsimProvider) where
  -- A request with its bearer token and its `X-Request-ID`; `generated` is a new identifier.
  unfoldable pub serve :
      Option String
      → String
      → Option String
      → Request
      → Service keys.State locks.State
      → Answer × Service keys.State locks.State
  unfolding answered authorised
  serve header generated credentials request s =
      let (r, s') =
        admit (authorised (scope_of request) settings.registry credentials)
          (handle keys locks settings rt provider request) s in
      (answered (request_id_of header generated) r, s')
