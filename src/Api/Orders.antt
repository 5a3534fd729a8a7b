-- ===== src/Api/Orders.antt =====
-- `create_order`, `topup_order` and `cancel_order` of app/api/v1/orders.py. The JSON text of a
-- response is a parameter.
use seemsim_esim_gateway.Schemas.Order.{OrderOut, order_out, TopupResponse, CancelOrderResponse}
use seemsim_esim_gateway.Schemas.{ApiResponse, api_response}
use Prim.Native.String.{◌++◌ as append}
use seemsim_esim_gateway.Prelude.{ℕ, String, Option}
use seemsim_esim_gateway.Python.Runtime.{Runtime}
use seemsim_esim_gateway.Models.{ProviderOrder}
use seemsim_esim_gateway.Exec.{Exec, pure, ◌>>=◌}
use seemsim_esim_gateway.Providers.Base.{BaseEsimProvider}
use seemsim_esim_gateway.Services.Orders
use seemsim_esim_gateway.Redis.{Redis}
use seemsim_esim_gateway.Idempotency.{IdempotencyRecord, compute_request_fingerprint}
use seemsim_esim_gateway.Api.{Gateway, Reply}
use seemsim_esim_gateway.Api.Guarded.{guarded}

-- The hash, the lifetime of a key, and the JSON texts of the three responses.
pub record ApiConfig : Type 0 where
  pub sha256_hex : String → String
  pub idempotency_key_ttl_seconds : ℕ
  pub order_json : ApiResponse OrderOut → String
  pub topup_json : ApiResponse TopupResponse → String
  pub cancel_json : ApiResponse CancelOrderResponse → String

-- The responses of a top-up and of a cancellation.
abbrev pub topup_response : String → String → ProviderOrder → TopupResponse
topup_response iccid package_code order = record {
  order_id = order.id;
  iccid = iccid;
  package_code = package_code;
  status = order.status;
}

abbrev pub cancel_response : ProviderOrder → CancelOrderResponse
cancel_response order = record {
  order_id = order.id;
  status = order.status;
  message = "Order cancelled successfully";
}

module _ (redis : Redis IdempotencyRecord) (config : ApiConfig) (rt : Runtime)
    (provider : BaseEsimProvider) where
  -- `create_order`; `raw_body` is the body of the request, of which the first two are parts.
  unfoldable pub create_order :
      String → ℕ → String → Option String → Exec (Gateway redis.State) Reply
  create_order package_code quantity raw_body idempotency_key =
      guarded redis config.idempotency_key_ttl_seconds 201
        (compute_request_fingerprint config.sha256_hex "POST" "/v1/orders" raw_body)
        (do
          order ← Orders.create_order rt provider package_code quantity idempotency_key
          pure (config.order_json (api_response (order_out order))))
        idempotency_key

  -- `topup_order`
  unfoldable pub topup_order :
      String → String → String → String → Option String → Exec (Gateway redis.State) Reply
  topup_order order_id package_code iccid raw_body idempotency_key =
      guarded redis config.idempotency_key_ttl_seconds 200
        (compute_request_fingerprint config.sha256_hex "POST"
          (append "/v1/orders/" (append order_id "/topup")) raw_body)
        (do
          order ← Orders.topup_order rt provider order_id package_code iccid idempotency_key
          pure (config.topup_json (api_response (topup_response iccid package_code order))))
        idempotency_key

  -- `cancel_order`
  unfoldable pub cancel_order : String → String → Option String → Exec (Gateway redis.State) Reply
  cancel_order order_id raw_body idempotency_key =
      guarded redis config.idempotency_key_ttl_seconds 200
        (compute_request_fingerprint config.sha256_hex "POST"
          (append "/v1/orders/" (append order_id "/cancel")) raw_body)
        (do
          order ← Orders.cancel_order rt provider order_id
          pure (config.cancel_json (api_response (cancel_response order))))
        idempotency_key
