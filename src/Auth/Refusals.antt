-- ===== src/Auth/Refusals.antt =====
-- How app/core/auth.py refuses a caller.
use seemsim_esim_gateway.Prelude.{
  String, Option, none, some, List, [], ◌∷◌, ◌≡◌, ◌⊎◌, inl, inr, refl, arith, Bool-cases, sym, ◌∙◌,
}
use mathlib.Core.Path.{subst}
use seemsim_esim_gateway.Errors.{
  Exception, app, authentication_error, authorization_error, error_response,
}
use seemsim_esim_gateway.Exec.{Result, ok, err}
use seemsim_esim_gateway.Auth.{
  ServiceClient, CallerIdentity, Registry, authenticate, identify, get_caller_identity, missing,
  allow, check, require_scope,
}

-- The exception is rendered with status 401 or 403.
abbrev pub Refusal : Exception → Type 0
Refusal e = ((error_response e).status ≡ 401) ⊎ ((error_response e).status ≡ 403)

injected : {e exc : Exception} → ◌≡◌ {A = Result CallerIdentity} (err e) (err exc) → e ≡ exc
injected h = ground arith

unauthenticated-Refusal :
    {e : Exception} (detail : String)
    → ◌≡◌ {A = Result CallerIdentity} (err (app authentication_error detail)) (err e)
    → Refusal e
unfolding error_response
unauthenticated-Refusal detail h = subst Refusal (injected h) (inl refl)

unauthorized-Refusal :
    {e : Exception} (detail : String)
    → ◌≡◌ {A = Result CallerIdentity} (err (app authorization_error detail)) (err e)
    → Refusal e
unfolding error_response
unauthorized-Refusal detail h = subst Refusal (injected h) (inr refl)

identify-Refusal :
    (found : Option ServiceClient) (e : Exception) → identify found ≡ err e → Refusal e
identify-Refusal none e h = unauthenticated-Refusal "Invalid API key" h
identify-Refusal (some client) e h = elim (Bool-cases client.enabled) [
  | inl b ↦ absurd (ground arith)
  | inr b ↦ unauthorized-Refusal "Service client is disabled" (sym (rw b refl) ∙ h)
]

get_caller_identity-Refusal :
    (registry : Registry) (credentials : Option String) (e : Exception)
    → get_caller_identity registry credentials ≡ err e
    → Refusal e
unfolding get_caller_identity
get_caller_identity-Refusal registry none e h =
    unauthenticated-Refusal "Missing authorization header" h
get_caller_identity-Refusal registry (some key) e h =
    identify-Refusal (authenticate registry key) e h

allow-Refusal :
    (caller : CallerIdentity) (lacking : List String) (e : Exception)
    → allow caller lacking ≡ err e
    → Refusal e
allow-Refusal caller [] e h = absurd (ground arith)
allow-Refusal caller (s ∷ ss) e h = unauthorized-Refusal _ h

check-Refusal :
    (scopes : List String) (r : Result CallerIdentity) (e : Exception)
    → ((exc : Exception) → r ≡ err exc → Refusal exc)
    → check scopes r ≡ err e
    → Refusal e
check-Refusal scopes (ok caller) e k h = allow-Refusal caller (missing scopes caller.scopes) e h
check-Refusal scopes (err exc) e k h = k e h

-- Whoever is not admitted is refused with status 401 or 403.
pub require_scope-Refusal :
    (scopes : List String) (registry : Registry) (credentials : Option String) (e : Exception)
    → require_scope scopes registry credentials ≡ err e
    → Refusal e
unfolding require_scope
require_scope-Refusal scopes registry credentials e h =
    check-Refusal scopes (get_caller_identity registry credentials) e
      (λ exc. get_caller_identity-Refusal registry credentials exc) h
