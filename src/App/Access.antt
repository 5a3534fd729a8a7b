-- ===== src/App/Access.antt =====
-- Who gets past the check of the caller, over the whole application.
use mathlib.Core.Path.{subst}
use seemsim_esim_gateway.Auth.Refusals.{Refusal, require_scope-Refusal}
use seemsim_esim_gateway.Prelude.{
  String, Option, none, some, [], ◌∷◌, ◌≡◌, ◌⊎◌, inl, inr, refl, arith, ap, ◌∙◌,
}
use seemsim_esim_gateway.Errors.{Exception, app, builtin}
use seemsim_esim_gateway.Exec.{Result, ok, err, Result-cases, Exec}
use seemsim_esim_gateway.Python.Runtime.{Runtime}
use seemsim_esim_gateway.Redis.{Redis}
use seemsim_esim_gateway.Idempotency.{IdempotencyRecord}
use seemsim_esim_gateway.Auth.{CallerIdentity, Registry, require_scope}
use seemsim_esim_gateway.Auth.Scopes.{Granted, require_scope-Granted}
use seemsim_esim_gateway.Providers.Base.{BaseEsimProvider}
use seemsim_esim_gateway.App.Routes.{Request, scope_of}
use seemsim_esim_gateway.App.Endpoints.{Service, Settings, Reply, handle}
use seemsim_esim_gateway.App.Serve.{
  Answer, failed, serve, answered, request_id_of, authorised, admit,
}

-- The caller presented the key of an enabled client that has the scope.
pub record Authorised (scope : String) (registry : Registry) (credentials : Option String)
    : Type 0 where
  pub key : String
  pub caller : CallerIdentity
  pub presented : credentials ≡ some key
  pub granted : Granted (scope ∷ []) registry key caller

-- The caller got an answer with status 401 or 403 and nothing else, and nothing changed.
pub record Denied {S : Type 0} (p : Answer × S) (s : S) : Type 0 where
  pub reason : Exception
  pub refusal : Refusal reason
  pub reply : p.0.reply ≡ failed reason
  pub unchanged : p.1 ≡ s

answered-failed : (id : String) (e : Exception) → (answered id (err e)).reply ≡ failed e
unfolding answered
answered-failed id (app c detail) = refl
answered-failed id (builtin name text) = refl

refused-Denied :
    {S : Type 0} (id : String) (r : Result (Unit {0})) (exc : Exception) (endpoint : Exec S Reply)
    (s : S)
    → r ≡ err exc
    → Refusal exc
    → let (outcome, s') = admit r endpoint s in Denied (answered id outcome, s') s
refused-Denied id (ok _) exc endpoint s h refusal = absurd (ground arith)
refused-Denied id (err e) exc endpoint s h refusal = record {
  reason = e;
  refusal = subst Refusal (ground arith) refusal;
  reply = answered-failed id e;
  unchanged = refl;
}

authorised-err :
    (scope : String) (registry : Registry) (credentials : Option String) (exc : Exception)
    → require_scope (scope ∷ []) registry credentials ≡ err exc
    → authorised (some scope) registry credentials ≡ err exc
unfolding authorised
authorised-err scope registry credentials exc h = rw (h, authorised) refl

module _ (scope : String) (registry : Registry) where
  admitted-Authorised :
      (credentials : Option String) (caller : CallerIdentity)
      → require_scope (scope ∷ []) registry credentials ≡ ok caller
      → Authorised scope registry credentials
  unfolding require_scope
  admitted-Authorised none caller h = absurd (ground arith)
  admitted-Authorised (some key) caller h = record {
    key = key;
    caller = caller;
    presented = refl;
    granted = require_scope-Granted (scope ∷ []) registry key caller h;
  }

module _ (keys : Redis IdempotencyRecord) (locks : Redis String) (settings : Settings)
    (rt : Runtime) (provider : BaseEsimProvider) where
  -- A request to an endpoint with a scope: either the caller presented the key of an enabled client
  -- with that scope, or the answer has status 401 or 403 and nothing but the reason, and nothing
  -- changes.
  pub serve-Authorised :
      (header : Option String) (generated : String) (credentials : Option String)
      (request : Request) (scope : String) (s : Service keys.State locks.State)
      → scope_of request ≡ some scope
      → Authorised scope settings.registry credentials
        ⊎ Denied (serve keys locks settings rt provider header generated credentials request s) s
  unfolding serve
  serve-Authorised header generated credentials request scope s h =
      elim (Result-cases (require_scope (scope ∷ []) settings.registry credentials)) [
        | inl (caller, e) ↦ inl (admitted-Authorised scope settings.registry credentials caller e)
        | inr (exc, e) ↦ inr (
            refused-Denied (request_id_of header generated) _ exc
              (handle keys locks settings rt provider request) s
              (ap (λ o. authorised o settings.registry credentials) h
                ∙ authorised-err scope settings.registry credentials exc e)
              (require_scope-Refusal (scope ∷ []) settings.registry credentials exc e))
      ]
