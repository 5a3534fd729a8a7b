-- ===== src/Tests/GatewayRuns.antt =====
-- Runs of the endpoints with their idempotency keys, of the client and of the callers' scopes.
use seemsim_esim_gateway.Prelude.{
  ℕ, String, true, none, some, [], ◌∷◌, ◌≡◌, ◌≢◌, ◌&&◌, ◌||◌, not, ltb, nat_eq, ◌==◌, refl, arith,
  eq_iff, if◌then◌else◌,
}
use seemsim_esim_gateway.Python.Json.{bool, dict, find, get, end, field}
use seemsim_esim_gateway.Python.Runtime.{str_or_empty}
use seemsim_esim_gateway.Errors.{
  new_error, idempotency_conflict_error, idempotency_processing_error,
}
use seemsim_esim_gateway.Exec.{ok, err, pure, raise}
use seemsim_esim_gateway.Db.{M}
use seemsim_esim_gateway.Redis.Memory.{Memory, memory}
use seemsim_esim_gateway.Idempotency.{IdempotencyRecord, redis_key, locked}
use seemsim_esim_gateway.Api.{Gateway}
use seemsim_esim_gateway.Api.Guarded.{guarded}
use seemsim_esim_gateway.Api.Replay.{
  later, guarded-replay, guarded-release, guarded-conflict, guarded-processing,
}
use seemsim_esim_gateway.Auth.{ServiceClient, CallerIdentity, Registry, require_scope}
use seemsim_esim_gateway.Auth.Scopes.{Granted, require_scope-admits, require_scope-Granted}
use seemsim_esim_gateway.Providers.EsimAccess.Auth.{EsimAccessAuth, Http, response}
use seemsim_esim_gateway.Providers.EsimAccess.Client.{is_true, request_once, request, read_outcome}
use seemsim_esim_gateway.Providers.EsimAccess.Client.Outcomes.{is_ok, read_outcome-accepts}
use seemsim_esim_gateway.Providers.EsimAccess.Client.Retries.{AnsweredBy, request-AnsweredBy}
use seemsim_esim_gateway.Tests.Sample.{sample_runtime, refusal, no_tables, world_of}

abbrev key : String
key = "k"

key_given : key ≢ ""
key_given e = absurd (ground (arith, eq_iff key "", e))

-- No key in Redis, and one that a request in progress holds.
abbrev idle : Gateway (Memory IdempotencyRecord)
idle = record { keys = record { now = 0; entries = [] }; world = world_of no_tables }

abbrev busy : Gateway (Memory IdempotencyRecord)
busy = record {
  keys = record {
    now = 0;
    entries = (redis_key key, record { value = locked "f"; deadline = 60 }) ∷ [];
  };
  world = world_of no_tables;
}

abbrev working : M String
working = pure "body"

abbrev raising : M String
raising = raise refusal

guarded-replay_example :
    let (r, g') = guarded memory 60 201 "f" working (some key) idle in
    (r ≡ ok (record { status = 201; body = "body" }))
    × (guarded memory 60 201 "f" raising (some key) (later memory 30 g')
        ≡ (ok (record { status = 201; body = "body" }), later memory 30 g'))
unfolding seemsim_esim_gateway.Redis.Memory.get
guarded-replay_example =
    guarded-replay memory 60 201 "f" key key_given working idle "body" idle.world 30 raising
      (λ e. absurd (omega (arith, e))) refl refl (omega arith)

guarded-release_example :
    let (r, g') = guarded memory 60 201 "f" raising (some key) idle in
    (r ≡ err refusal) × (g'.world.tables ≡ no_tables) × (memory.get (redis_key key) g'.keys ≡ none)
unfolding seemsim_esim_gateway.Redis.Memory.get
guarded-release_example =
    guarded-release memory 60 201 "f" key key_given raising idle refusal idle.world refl refl

abbrev other : String
other = "f"

other_given : other ≢ ""
other_given e = absurd (ground (arith, eq_iff other "", e))

other_differs : other ≢ "g"
other_differs e = absurd (ground (arith, eq_iff other "g", e))

guarded-conflict_example : guarded memory 60 201 "g" working (some key) busy ≡ (
  err (
      new_error idempotency_conflict_error "Idempotency key already used with a different request"),
  busy,
)
unfolding seemsim_esim_gateway.Redis.Memory.get
guarded-conflict_example =
    guarded-conflict memory 60 201 key key_given "g" other (locked "f") working busy refl refl
      other_given other_differs

guarded-processing_example :
    guarded memory 60 201 "f" working (some key) busy
    ≡ (err (new_error idempotency_processing_error ""), busy)
unfolding seemsim_esim_gateway.Redis.Memory.get
guarded-processing_example = guarded-processing memory 60 201 key key_given "f" working busy refl

-- A client with one scope.
abbrev pub reader : ServiceClient
reader = record { name = "shop"; api_key = "s3cret"; enabled = true; scopes = "orders:read" ∷ [] }

abbrev shop : CallerIdentity
shop = record { service_name = "shop"; scopes = "orders:read" ∷ [] }

reader-Granted : Granted ("orders:read" ∷ []) (reader ∷ []) "s3cret" shop
unfolding seemsim_esim_gateway.Auth.authenticate
reader-Granted = record {
  client = reader;
  registered = refl;
  is_enabled = refl;
  identity = refl;
  covers = (refl, tt);
}

require_scope-admits_example :
    require_scope ("orders:read" ∷ []) (reader ∷ []) (some "s3cret") ≡ ok shop
require_scope-admits_example =
    require_scope-admits ("orders:read" ∷ []) (reader ∷ []) "s3cret" shop reader-Granted

-- A transport whose first answer is an error of the server.
abbrev flaky : Http
flaky = record {
  post = λ exchange attempt path body headers.
      if nat_eq attempt 1
      then response 503 none
      else response 200 (some (dict (field "success" (bool true) end)));
  dumps = λ o. "{}";
  hmac_sha256_hex = λ k d. "00";
  timestamp = λ n k. "1";
  request_id = λ n k. "r";
}

abbrev credentials : EsimAccessAuth
credentials = record { access_code = "a"; secret_key = "s" }

request-AnsweredBy_example :
    (j : ℕ) × AnsweredBy
      (request_once sample_runtime flaky credentials 0 "/p" end)
      2
      1
      (request sample_runtime flaky credentials 0 "/p" end)
      j
request-AnsweredBy_example = request-AnsweredBy sample_runtime flaky credentials 0 "/p" end

read_outcome-accepts_example :
    is_ok (
      read_outcome sample_runtime "/p"
        (response 200 (some (dict (field "success" (bool true) end)))))
    ≡ (ltb 200 500
        && not (nat_eq 200 401)
        && not (nat_eq 200 429)
        && (is_true (find (field "success" (bool true) end) "success")
            || str_or_empty sample_runtime (get (field "success" (bool true) end) "errorCode")
              == "0"))
read_outcome-accepts_example =
    read_outcome-accepts sample_runtime "/p" 200 (field "success" (bool true) end)

require_scope-Granted_example : Granted ("orders:read" ∷ []) (reader ∷ []) "s3cret" shop
unfolding seemsim_esim_gateway.Auth.require_scope seemsim_esim_gateway.Auth.authenticate
    seemsim_esim_gateway.Auth.missing
require_scope-Granted_example =
    require_scope-Granted ("orders:read" ∷ []) (reader ∷ []) "s3cret" shop refl
