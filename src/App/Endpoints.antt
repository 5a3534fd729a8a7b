-- ===== src/App/Endpoints.antt =====
-- The endpoints of app/api/v1 behind one function, over the state of the whole service.
use seemsim_esim_gateway.Prelude.{ℕ, String, Bool, List, if◌then◌else◌}
use seemsim_esim_gateway.Python.Json.{Object}
use seemsim_esim_gateway.Python.Runtime.{Runtime}
use seemsim_esim_gateway.Exec.{Exec, Result, ok, err, pure, ◌>>=◌}
use seemsim_esim_gateway.Db.{M, World, utc_now, in_session}
use seemsim_esim_gateway.Redis.{Redis}
use seemsim_esim_gateway.Idempotency.{IdempotencyRecord}
use seemsim_esim_gateway.Auth.{Registry}
use seemsim_esim_gateway.Providers.Base.{BaseEsimProvider, ProviderBalance}
use seemsim_esim_gateway.Services.Catalog.{CatalogSyncResponse}
use seemsim_esim_gateway.Reconciliation.Job.{Job}
use seemsim_esim_gateway.Schemas.{ApiResponse, HealthResponse, WebhookResponse}
use seemsim_esim_gateway.Schemas.Order.{is_valid, OrderOut, OrderRefreshResponse}
use seemsim_esim_gateway.Schemas.Esim.{EsimOut, EsimDetailOut, EsimStatusOut, EsimStatusHistoryOut}
use seemsim_esim_gateway.Schemas.Product.{PackageOut, ProductOut, ProductListOut}
use seemsim_esim_gateway.Api.{Gateway}
use seemsim_esim_gateway.Api.Admin
use seemsim_esim_gateway.Api.Admin.{WebhookEventItem}
use seemsim_esim_gateway.Api.Catalog
use seemsim_esim_gateway.Api.Esims
use seemsim_esim_gateway.Api.Health
use seemsim_esim_gateway.Api.OrderReads
use seemsim_esim_gateway.Api.Orders
use seemsim_esim_gateway.Api.Orders.{ApiConfig}
use seemsim_esim_gateway.App.Routes.{
  Request, liveness, readiness, sync_catalog, list_products, list_all_packages, get_product,
  create_order, get_order, refresh_order, get_order_esims, topup_order, cancel_order, get_esim,
  get_esim_status, get_esim_history, esim_access_webhook, get_balance, trigger_reconciliation,
  list_webhook_events,
}

-- The idempotency keys and the locks in Redis, and the state of the services.
pub record Service (K L : Type 0) : Type 0 where
  pub keys : K
  pub locks : L
  pub world : World

-- The settings and the registry of clients, the database's order of texts, and whether the database
-- and Redis answer.
pub record Settings : Type 0 where
  pub app_name : String
  pub api : ApiConfig
  pub registry : Registry
  pub name_leb : String → String → Bool
  pub select_1 : Result (Unit {0})
  pub ping : Result (Unit {0})

-- The body of a response, by the `response_model` of the endpoint.
pub data Body : Type 0 where
  json : String → Body
  error : Object → Body
  invalid : Body
  health : HealthResponse → Body
  catalog_synced : ApiResponse CatalogSyncResponse → Body
  products : ApiResponse (List ProductListOut) → Body
  packages : ApiResponse (List PackageOut) → Body
  product : ApiResponse ProductOut → Body
  order : ApiResponse OrderOut → Body
  refreshed : ApiResponse OrderRefreshResponse → Body
  order_esims : ApiResponse (List EsimDetailOut) → Body
  esim : ApiResponse EsimOut → Body
  esim_status : ApiResponse EsimStatusOut → Body
  esim_history : ApiResponse (List EsimStatusHistoryOut) → Body
  received : ApiResponse WebhookResponse → Body
  balance : ApiResponse ProviderBalance → Body
  reconciled : ApiResponse ℕ → Body
  events : ApiResponse (List WebhookEventItem) → Body

pub record Reply : Type 0 where
  pub status : ℕ
  pub body : Body

module _ {K L A : Type 0} where
  -- An endpoint with a session of its own.
  unfoldable pub on_session : M A → (A → Body) → Exec (Service K L) Reply
  on_session m body s =
      let (r, w) = in_session m s.world in
      (
        elim r [ ok a ↦ ok (record { status = 200; body = body a }) | err e ↦ err e ],
        record s { world = w },
      )

  -- An endpoint that runs a background task.
  unfoldable pub on_job : Exec (Job L) A → (A → Body) → Exec (Service K L) Reply
  on_job m body s =
      let (r, j) = m (record { locks = s.locks; world = s.world }) in
      (
        elim r [ ok a ↦ ok (record { status = 200; body = body a }) | err e ↦ err e ],
        record s { locks = j.locks; world = j.world },
      )

-- A mutation endpoint, which has its session and its idempotency key.
unfoldable pub on_gateway :
    {K L : Type 0} → Exec (Gateway K) seemsim_esim_gateway.Api.Reply → Exec (Service K L) Reply
on_gateway m s =
    let (r, g) = m (record { keys = s.keys; world = s.world }) in
    (
      elim r [
        | ok reply ↦ ok (record { status = reply.status; body = json reply.body })
        | err e ↦ err e
      ],
      record s { keys = g.keys; world = g.world },
    )

module _ (keys : Redis IdempotencyRecord) (locks : Redis String) (settings : Settings)
    (rt : Runtime) (provider : BaseEsimProvider) where
  -- The endpoint of a request. The two probes have no session, and only read the clock.
  unfoldable pub handle : Request → Exec (Service keys.State locks.State) Reply
  unfolding on_session on_job on_gateway
  handle liveness =
      on_session (do now ← utc_now rt; pure (Health.liveness settings.app_name now)) health
  handle readiness =
      on_session
        (do
          now ← utc_now rt
          pure (Health.readiness settings.app_name settings.select_1 settings.ping now))
        health
  handle sync_catalog = on_session (Catalog.sync_catalog provider) catalog_synced
  handle list_products = on_session (Catalog.list_products settings.name_leb) products
  handle list_all_packages = on_session (Catalog.list_all_packages settings.name_leb) packages
  handle (get_product product_id) = on_session (Catalog.get_product product_id) product
  handle (create_order body raw_body key) =
      if is_valid body
      then on_gateway (
          Orders.create_order keys settings.api rt provider body.package_code body.quantity raw_body
            key)
      else pure (record { status = 422; body = invalid })
  handle (get_order order_id) = on_session (OrderReads.get_order rt provider order_id) order
  handle (refresh_order order_id) =
      on_session (OrderReads.refresh_order rt provider order_id) refreshed
  handle (get_order_esims order_id) =
      on_session (OrderReads.get_order_esims rt provider order_id) order_esims
  handle (topup_order order_id body raw_body key) = on_gateway (
      Orders.topup_order keys settings.api rt provider order_id body.package_code body.iccid
        raw_body key)
  handle (cancel_order order_id raw_body key) =
      on_gateway (Orders.cancel_order keys settings.api rt provider order_id raw_body key)
  handle (get_esim esim_id) = on_session (Esims.get_esim esim_id) esim
  handle (get_esim_status esim_id) =
      on_session (Esims.get_esim_status rt provider esim_id) esim_status
  handle (get_esim_history esim_id) = on_session (Esims.get_esim_history esim_id) esim_history
  handle (esim_access_webhook payload) =
      on_session (Admin.esim_access_webhook rt provider payload) received
  handle get_balance = on_session (Admin.get_balance provider) balance
  handle trigger_reconciliation = on_job (Admin.trigger_reconciliation locks rt provider) reconciled
  handle (list_webhook_events limit) = on_session (Admin.list_webhook_events limit) events
