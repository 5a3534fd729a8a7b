-- ===== src/Api/OrderReads.antt =====
-- `get_order`, `refresh_order` and `get_order_esims` of app/api/v1/orders.py.
use seemsim_esim_gateway.Prelude.{String, List, map}
use seemsim_esim_gateway.Python.Runtime.{Runtime}
use seemsim_esim_gateway.Exec.{pure, ◌>>=◌}
use seemsim_esim_gateway.Db.{M}
use seemsim_esim_gateway.Providers.Base.{BaseEsimProvider}
use seemsim_esim_gateway.Services.Orders
use seemsim_esim_gateway.Schemas.{ApiResponse, api_response}
use seemsim_esim_gateway.Schemas.Order.{OrderOut, order_out, OrderRefreshResponse}
use seemsim_esim_gateway.Schemas.Esim.{EsimDetailOut, esim_detail}

module _ (rt : Runtime) (provider : BaseEsimProvider) where
  -- `get_order`
  unfoldable pub get_order : String → M (ApiResponse OrderOut)
  get_order order_id = do
    order ← Orders.get_order rt provider order_id
    pure (api_response (order_out order))

  -- `refresh_order`
  unfoldable pub refresh_order : String → M (ApiResponse OrderRefreshResponse)
  refresh_order order_id = do
    sync_result ← Orders.refresh_order_status rt provider order_id
    pure (
        api_response (record {
          order = record {
            order = order_out sync_result.order;
            esims = map esim_detail sync_result.esims;
          };
          state_changed = sync_result.state_changed;
          source = "manual_refresh";
        }))

  -- `get_order_esims`
  unfoldable pub get_order_esims : String → M (ApiResponse (List EsimDetailOut))
  get_order_esims order_id = do
    esims ← Orders.get_order_esims rt provider order_id
    pure (api_response (map esim_detail esims))
