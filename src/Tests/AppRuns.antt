-- ===== src/Tests/AppRuns.antt =====
-- Requests to the whole application.
use seemsim_esim_gateway.Prelude.{
  String, true, none, some, [], ◌∷◌, ◌≡◌, ◌⊎◌, refl, ◌≢◌, map, ◌<◌, sym, arith, eq_iff,
}
use mathlib.Core.Path.{subst}
use seemsim_esim_gateway.App.Repeat.{later_service, serve-repeat}
use seemsim_esim_gateway.Exec.{ok}
use seemsim_esim_gateway.Redis.Memory.{Memory, memory}
use seemsim_esim_gateway.Idempotency.{IdempotencyRecord}
use seemsim_esim_gateway.Auth.{ServiceClient}
use seemsim_esim_gateway.Api.Orders.{ApiConfig}
use seemsim_esim_gateway.App.Routes.{Request, create_order, get_order, cancel_order}
use seemsim_esim_gateway.App.Endpoints.{Service, Settings}
use seemsim_esim_gateway.App.Serve.{Answer, serve}
use seemsim_esim_gateway.Providers.EsimAccess.Auth.{Http, response}
use seemsim_esim_gateway.Python.Json.{bool, str, dict, end, field}
use seemsim_esim_gateway.App.Startup.{Credentials}
use seemsim_esim_gateway.App.Wiring.{get_provider}
use seemsim_esim_gateway.App.Access.{Authorised, Denied, serve-Authorised}
use seemsim_esim_gateway.App.Reads.{stored, serve-stored}
use seemsim_esim_gateway.Tests.GatewayRuns.{reader}
use seemsim_esim_gateway.Tests.Sample.{sample_runtime, accepting, world_with}

abbrev api : ApiConfig
api = record {
  sha256_hex = λ s. s;
  idempotency_key_ttl_seconds = 86400;
  order_json = λ r. "{...}";
  topup_json = λ r. "{...}";
  cancel_json = λ r. "{...}";
}

abbrev settings : Settings
settings = record {
  app_name = "esim-gateway";
  api = api;
  registry = reader ∷ [];
  name_leb = λ s t. true;
  select_1 = ok tt;
  ping = ok tt;
}

abbrev idle_service : Service (Memory IdempotencyRecord) (Memory String)
idle_service = record {
  keys = record { now = 0; entries = [] };
  locks = record { now = 0; entries = [] };
  world = world_with "processing";
}

-- The reader may not cancel.
serve-Authorised_example :
    Authorised "cancel:create" settings.registry (some "s3cret")
    ⊎ Denied
        (serve memory memory settings sample_runtime accepting none "r1"
          (some "s3cret")
          (cancel_order "o1" "" none)
          idle_service)
        idle_service
serve-Authorised_example =
    serve-Authorised memory memory settings sample_runtime accepting none "r1" (some "s3cret")
      (cancel_order "o1" "" none) "cancel:create" idle_service refl

serve-stored_example :
    stored
      (serve memory memory settings sample_runtime accepting none "r1"
        (some "s3cret")
        (get_order "o1")
        idle_service).1
    ≡ stored idle_service
serve-stored_example =
    serve-stored memory memory settings sample_runtime accepting none "r1" (some "s3cret")
      (get_order "o1") idle_service refl refl

-- A client that may cancel orders, and its answer.
abbrev operator : ServiceClient
operator = record { name = "ops"; api_key = "0ps"; enabled = true; scopes = "cancel:create" ∷ [] }

abbrev with_operator : Settings
with_operator = record settings { registry = operator ∷ [] }

abbrev cancelling : Request
cancelling = cancel_order "o1" "{}" (some "k1")

abbrev cancelled_once : Answer × Service (Memory IdempotencyRecord) (Memory String)
cancelled_once =
    serve memory memory with_operator sample_runtime accepting none "r1" (some "0ps") cancelling
      idle_service

abbrev k1 : String
k1 = "k1"

k1_given : k1 ≢ ""
k1_given e = ground (arith, eq_iff k1 "", e)

answered_with_200 : cancelled_once.0.reply.status ≡ 200
unfolding serve seemsim_esim_gateway.Auth.require_scope seemsim_esim_gateway.Auth.authenticate
    seemsim_esim_gateway.Auth.missing seemsim_esim_gateway.App.Endpoints.handle
    seemsim_esim_gateway.Api.Orders.cancel_order seemsim_esim_gateway.Api.Guarded.guarded
    seemsim_esim_gateway.Idempotency.check_or_lock seemsim_esim_gateway.Redis.Memory.get
    seemsim_esim_gateway.Redis.Memory.set_nx seemsim_esim_gateway.Services.Orders.cancel_order
    seemsim_esim_gateway.Db.Repositories.Orders.get_by_id seemsim_esim_gateway.Db.Table.find_row
    seemsim_esim_gateway.Db.Repositories.Orders.mutate seemsim_esim_gateway.Idempotency.complete
answered_with_200 = refl

serve-repeat_example :
    serve memory memory with_operator sample_runtime accepting
      (some "again")
      "r2"
      (some "0ps")
      cancelling
      (later_service memory memory 60 cancelled_once.1)
    ≡ (
      record { reply = cancelled_once.0.reply; request_id = some "again" },
      later_service memory memory 60 cancelled_once.1,
    )
unfolding seemsim_esim_gateway.Redis.Memory.get
serve-repeat_example =
    serve-repeat memory memory with_operator sample_runtime accepting 60 idle_service (omega arith)
      none (some "again") "r1" "r2" (some "0ps") cancelling "k1" refl k1_given refl
      (subst (λ n. n < 202) (sym answered_with_200) (omega arith))

-- The provider over a transport that answers every POST with an order number.
abbrev numbering : Http
numbering = record {
  post = λ exchange attempt path body headers. response 200 (
      some (
        dict
          (field "success" (bool true) (field "obj" (dict (field "orderNo" (str "B7") end)) end))));
  dumps = λ o. "{...}";
  hmac_sha256_hex = λ key text. text;
  timestamp = λ exchange attempt. "1000";
  request_id = λ exchange attempt. "r";
}

abbrev credentials : Credentials
credentials = record {
  esim_access_access_code = "code";
  esim_access_secret_key = "secret";
  internal_service_clients = "[]";
}

abbrev buyer : ServiceClient
buyer = record { name = "shop"; api_key = "b"; enabled = true; scopes = "orders:create" ∷ [] }

-- An order through all layers: it is answered with 201, and stored with the number of the provider.
placed_over_http :
    let (answer, s') =
      serve memory memory
        (record settings { registry = buyer ∷ [] })
        sample_runtime
        (get_provider sample_runtime numbering credentials)
        none
        "r1"
        (some "b")
        (create_order (record { package_code = "P1"; quantity = 1 }) "{}" (some "k2"))
        idle_service in
    (answer.reply.status ≡ 201)
    × (map (λ o. o.provider_order_no) s'.world.orders ≡ some "B1" ∷ some "B7" ∷ [])
unfolding serve seemsim_esim_gateway.Auth.require_scope seemsim_esim_gateway.Auth.authenticate
    seemsim_esim_gateway.Auth.missing seemsim_esim_gateway.App.Endpoints.handle
    seemsim_esim_gateway.Api.Orders.create_order seemsim_esim_gateway.Api.Guarded.guarded
    seemsim_esim_gateway.Idempotency.check_or_lock seemsim_esim_gateway.Redis.Memory.get
    seemsim_esim_gateway.Redis.Memory.set_nx seemsim_esim_gateway.Services.Orders.create_order
    seemsim_esim_gateway.Db.Repositories.Orders.create
    seemsim_esim_gateway.Providers.EsimAccess.Adapter.esim_access_provider
    seemsim_esim_gateway.Providers.EsimAccess.Client.request
    seemsim_esim_gateway.Providers.EsimAccess.Client.is_retryable
    seemsim_esim_gateway.Python.Json.find seemsim_esim_gateway.Python.Json.get
    seemsim_esim_gateway.Db.Repositories.Orders.mutate
    seemsim_esim_gateway.Db.Repositories.Orders.add_operation_log
    seemsim_esim_gateway.Db.Repositories.Orders.get_by_id seemsim_esim_gateway.Idempotency.complete
    seemsim_esim_gateway.Sync.Order.sync_order seemsim_esim_gateway.Sync.Order.merge_query
    seemsim_esim_gateway.Db.Table.update_row seemsim_esim_gateway.Python.Number.text_of_int
placed_over_http = (refl, refl)
