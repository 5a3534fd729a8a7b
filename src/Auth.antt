-- ===== src/Auth.antt =====
-- app/core/auth.py: the registry of internal clients, authentication and scopes.
pub mod Scopes
pub mod Refusals
use Prim.Native.String.{◌++◌ as append}
use seemsim_esim_gateway.Prelude.{
  ℕ, String, Bool, true, false, not, ◌&&◌, ◌||◌, Option, none, some, List, [], ◌∷◌, ◌++◌, contains,
  if◌then◌else◌, ◌==◌, ◌≡◌, refl, ◌+◌,
}
use seemsim_esim_gateway.Python.Text.{strip}
use seemsim_esim_gateway.Python.Json.{
  Value, null, bool, int, str, list, dict, Array, nil, cons, Object, end, field, find, get_or,
  truthy,
}
use seemsim_esim_gateway.Errors.{
  Exception, builtin, new_error, authentication_error, authorization_error,
}
use seemsim_esim_gateway.Exec.{Exec, Result, ok, err, lift, raise, pure, ◌>>=◌, ◌>>◌}

pub record ServiceClient : Type 0 where
  pub name : String
  pub api_key : String
  pub enabled : Bool
  pub scopes : List String

pub record CallerIdentity : Type 0 where
  pub service_name : String
  pub scopes : List String

-- `_by_key`: the client of each key; the latest entry of a key stands first.
abbrev pub Registry : Type 0
Registry = List ServiceClient

-- `self._by_key.get(api_key)`
unfoldable pub authenticate : Registry → String → Option ServiceClient
authenticate [] api_key = none
authenticate (c ∷ cs) api_key = if c.api_key == api_key then some c else authenticate cs api_key

-- `entry[name]`, which must be a text.
abbrev pub required : Object → String → Result String
required entry name = elim (find entry name) [
  | none ↦ err (builtin "KeyError" name)
  | some v ↦ elim v [ str s ↦ ok s | _ ↦ err (builtin "TypeError" name) ]
]

-- A value that can be in a set; of the hashable ones only a text can be a scope.
abbrev pub hashed : Value → Result (List String)
hashed (str s) = ok (s ∷ [])
hashed (list a) = err (builtin "TypeError" "unhashable type")
hashed (dict o) = err (builtin "TypeError" "unhashable type")
hashed _ = ok []

-- The texts of a set that is made from a list, of a dict (its keys) and of a text (its characters).
unfoldable pub texts : Array → Result (List String)
texts nil = ok []
texts (cons v vs) = elim (hashed v) [
  | err e ↦ err e
  | ok s ↦ elim (texts vs) [ err e ↦ err e | ok ss ↦ ok (s ++ ss) ]
]

unfoldable pub keys : Object → List String
keys end = []
keys (field key value rest) = key ∷ keys rest

unfoldable pub characters : String → List String
characters String.[] = []
characters (String.◌∷◌ c s) = String.◌∷◌ c "" ∷ characters s

-- `frozenset(entry.get("scopes", []))`
abbrev pub scopes_of : Value → Result (List String)
scopes_of (list a) = texts a
scopes_of (str s) = ok (characters s)
scopes_of (dict o) = ok (keys o)
scopes_of _ = err (builtin "TypeError" "object is not iterable")

abbrev pub entry_of : Value → Result Object
entry_of (dict o) = ok o
entry_of _ = err (builtin "TypeError" "indices must be integers")

-- One round of the loop of `load_from_json`.
unfoldable pub register : Value → Exec Registry (Unit {0})
register v = do
  entry ← lift (entry_of v)
  name ← lift (required entry "name")
  api_key ← lift (required entry "api_key")
  scopes ← lift (scopes_of (get_or entry "scopes" (list nil)))
  let client : ServiceClient = record {
    name = name;
    api_key = api_key;
    enabled = truthy (get_or entry "enabled" (bool true));
    scopes = scopes;
  }
  λ r. (ok tt, client ∷ r)

unfoldable pub register_all : Array → Exec Registry (Unit {0})
unfolding register
register_all nil = pure tt
register_all (cons v vs) = let rest = register_all vs in do register v; rest

abbrev register_clients : Value → Exec Registry (Unit {0})
register_clients (list a) = register_all a
register_clients (str s) =
    if s == "" then pure tt else raise (builtin "TypeError" "indices must be integers")
register_clients (dict end) = pure tt
register_clients (dict (field key value rest)) =
    raise (builtin "TypeError" "indices must be integers")
register_clients _ = raise (builtin "TypeError" "object is not iterable")

abbrev parsed : Option Value → Exec Registry (Unit {0})
parsed none = pure tt
parsed (some v) = register_clients v

-- `load_from_json`, for the parser `loads`, which is `none` where it raises `JSONDecodeError`.
unfoldable pub load_from_json : (String → Option Value) → String → Exec Registry (Unit {0})
unfolding register_all
load_from_json loads json_str =
    if strip json_str == "" || strip json_str == "[]" then pure tt else parsed (loads json_str)

-- `client_count`: the number of keys.
unfoldable pub client_count : Registry → ℕ
client_count [] = 0
client_count (c ∷ cs) =
    let rest = client_count cs in
    elim (authenticate cs c.api_key) [ none ↦ rest + 1 | some _ ↦ rest ]

-- `get_client_registry`: the registry is loaded by the first call, and stays, also where the loading
-- raises.
unfoldable pub get_client_registry :
    (String → Option Value) → String → Exec (Option Registry) Registry
unfolding load_from_json
get_client_registry loads clients (some registry) = (ok registry, some registry)
get_client_registry loads clients none =
    let (r, registry) = load_from_json loads clients [] in
    (elim r [ ok _ ↦ ok registry | err e ↦ err e ], some registry)

-- `reset_client_registry`
abbrev pub reset_client_registry : Exec (Option Registry) (Unit {0})
reset_client_registry _ = (ok tt, none)

abbrev identify : Option ServiceClient → Result CallerIdentity
identify none = err (new_error authentication_error "Invalid API key")
identify (some client) =
    if client.enabled
    then ok (record { service_name = client.name; scopes = client.scopes })
    else err (new_error authorization_error "Service client is disabled")

-- `get_caller_identity`
unfoldable pub get_caller_identity : Registry → Option String → Result CallerIdentity
get_caller_identity registry none =
    err (new_error authentication_error "Missing authorization header")
get_caller_identity registry (some credentials) = identify (authenticate registry credentials)

-- `set(scopes) - caller.scopes`
unfoldable pub missing : List String → List String → List String
missing [] granted = []
missing (s ∷ ss) granted =
    let rest = missing ss granted in if contains s granted then rest else s ∷ rest

-- `', '.join(sorted(missing))`; every endpoint requires one scope.
abbrev joined : List String → String
joined [] = ""
joined (s ∷ []) = s
joined (s ∷ ss) = append s (append ", " (joined ss))

abbrev allow : CallerIdentity → List String → Result CallerIdentity
allow caller [] = ok caller
allow caller (s ∷ ss) =
    err (new_error authorization_error (append "Insufficient scope: requires " (joined (s ∷ ss))))

abbrev check : List String → Result CallerIdentity → Result CallerIdentity
check scopes (err e) = err e
check scopes (ok caller) = allow caller (missing scopes caller.scopes)

-- `require_scope(*scopes)`
unfoldable pub require_scope : List String → Registry → Option String → Result CallerIdentity
unfolding get_caller_identity
require_scope scopes registry credentials = check scopes (get_caller_identity registry credentials)
