-- ===== src/App/Routes.antt =====
-- The routes of the application: app/main.py and the routers of app/api/v1.
use seemsim_esim_gateway.Prelude.{String, Bool, true, false, Option, none, some}
use seemsim_esim_gateway.Prelude.Int.{ℤ}
use seemsim_esim_gateway.Python.Json.{Object}
use seemsim_esim_gateway.Schemas.Order.{CreateOrderRequest, TopupRequest}

-- A request with its parameters and, for the mutations of orders, the bytes of its body and its
-- idempotency key. A body of another shape is refused before an endpoint is called.
pub data Request : Type 0 where
  liveness readiness : Request
  sync_catalog list_products list_all_packages : Request
  get_product : String → Request
  create_order : CreateOrderRequest → String → Option String → Request
  get_order refresh_order get_order_esims : String → Request
  topup_order : String → TopupRequest → String → Option String → Request
  cancel_order : String → String → Option String → Request
  get_esim get_esim_status get_esim_history : String → Request
  esim_access_webhook : Object → Request
  get_balance trigger_reconciliation : Request
  list_webhook_events : ℤ → Request

pub data Method : Type 0 where
  get post : Method

abbrev pub method_of : Request → Method
method_of sync_catalog = post
method_of (create_order _ _ _) = post
method_of (refresh_order _) = post
method_of (topup_order _ _ _ _) = post
method_of (cancel_order _ _ _) = post
method_of (esim_access_webhook _) = post
method_of trigger_reconciliation = post
method_of _ = get

-- The `_caller` of each endpoint.
abbrev pub scope_of : Request → Option String
scope_of liveness = none
scope_of readiness = none
scope_of sync_catalog = some "catalog:sync"
scope_of list_products = some "catalog:read"
scope_of list_all_packages = some "catalog:read"
scope_of (get_product _) = some "catalog:read"
scope_of (create_order _ _ _) = some "orders:create"
scope_of (get_order _) = some "orders:read"
scope_of (refresh_order _) = some "orders:refresh"
scope_of (get_order_esims _) = some "orders:read"
scope_of (topup_order _ _ _ _) = some "topup:create"
scope_of (cancel_order _ _ _) = some "cancel:create"
scope_of (get_esim _) = some "esims:read"
scope_of (get_esim_status _) = some "esims:read"
scope_of (get_esim_history _) = some "esims:read"
scope_of (esim_access_webhook _) = none
scope_of get_balance = some "balance:read"
scope_of trigger_reconciliation = some "reconciliation:run"
scope_of (list_webhook_events _) = some "admin:ops"

-- The request asks the provider for the status of an eSIM, and stores what it hears.
abbrev pub asks_status : Request → Bool
asks_status (get_esim_status _) = true
asks_status _ = false
