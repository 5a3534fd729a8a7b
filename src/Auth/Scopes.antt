-- ===== src/Auth/Scopes.antt =====
-- `require_scope` of app/core/auth.py and what a caller has to show.
use seemsim_esim_gateway.Prelude.{
  String, true, none, some, List, [], ◌∷◌, contains, All, ◌≡◌, refl, arith, Bool-cases,
  Option-cases, inl, inr,
}
use seemsim_esim_gateway.Exec.{ok}
use seemsim_esim_gateway.Auth.{
  ServiceClient, CallerIdentity, Registry, authenticate, get_caller_identity, missing,
  require_scope,
}

-- The client of the key is registered and enabled, the caller is that client, and all scopes that
-- are required are among its scopes.
pub record Granted (scopes : List String) (registry : Registry) (key : String)
    (caller : CallerIdentity) : Type 0 where
  pub client : ServiceClient
  pub registered : authenticate registry key ≡ some client
  pub is_enabled : client.enabled ≡ true
  pub identity : caller ≡ record { service_name = client.name; scopes = client.scopes }
  pub covers : All (λ s. contains s client.scopes ≡ true) scopes

missing-All :
    (scopes granted : List String)
    → missing scopes granted ≡ []
    → All (λ s. contains s granted ≡ true) scopes
unfolding missing
missing-All [] granted h = tt
missing-All (s ∷ ss) granted h = elim (Bool-cases (contains s granted)) [
  | inl e ↦ (e, missing-All ss granted (ground (arith, h, e)))
  | inr e ↦ absurd (ground (arith, h, e))
]

All-missing :
    (scopes granted : List String)
    → All (λ s. contains s granted ≡ true) scopes
    → missing scopes granted ≡ []
unfolding missing
All-missing [] granted h = refl
All-missing (s ∷ ss) granted (e, h) = ground (arith, e, All-missing ss granted h)

-- A caller with enabled credentials for all the scopes is admitted, as the client of its key.
pub require_scope-admits :
    (scopes : List String) (registry : Registry) (key : String) (caller : CallerIdentity)
    → Granted scopes registry key caller
    → require_scope scopes registry (some key) ≡ ok caller
unfolding require_scope get_caller_identity
require_scope-admits scopes registry key caller g =
    let m = All-missing scopes g.client.scopes g.covers in
    ground (arith, g.registered, g.is_enabled, g.identity, m)

granted :
    (scopes : List String) (registry : Registry) (key : String) (caller : CallerIdentity)
    (client : ServiceClient)
    → authenticate registry key ≡ some client
    → require_scope scopes registry (some key) ≡ ok caller
    → (client.enabled ≡ true)
      × (caller ≡ record { service_name = client.name; scopes = client.scopes })
      × (missing scopes client.scopes ≡ [])
unfolding require_scope get_caller_identity
granted scopes registry key caller client e h =
    (ground (arith, h, e), ground (arith, h, e), ground (arith, h, e))

unregistered :
    (scopes : List String) (registry : Registry) (key : String) (caller : CallerIdentity)
    → authenticate registry key ≡ none
    → require_scope scopes registry (some key) ≡ ok caller
    → ⊥
unfolding require_scope get_caller_identity
unregistered scopes registry key caller e h = ground (arith, h, e)

-- A caller that is admitted presented the key of an enabled client, is taken for that client, and has
-- all the scopes that are required.
pub require_scope-Granted :
    (scopes : List String) (registry : Registry) (key : String) (caller : CallerIdentity)
    → require_scope scopes registry (some key) ≡ ok caller
    → Granted scopes registry key caller
require_scope-Granted scopes registry key caller h =
    elim (Option-cases (authenticate registry key)) [
      | inl e ↦ absurd (unregistered scopes registry key caller e h)
      | inr (client, e) ↦
          let (enabled, same, none_missing) = granted scopes registry key caller client e h in
          record {
            client = client;
            registered = e;
            is_enabled = enabled;
            identity = same;
            covers = missing-All scopes client.scopes none_missing;
          }
    ]
