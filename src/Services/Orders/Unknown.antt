-- ===== src/Services/Orders/Unknown.antt =====
-- What the order service does with an identifier that no order has.
use Prim.Native.String.{◌++◌ as append}
use seemsim_esim_gateway.Prelude.{String, none, ◌≡◌, arith}
use seemsim_esim_gateway.Python.Runtime.{Runtime}
use seemsim_esim_gateway.Errors.{Exception, new_error, resource_not_found_error}
use seemsim_esim_gateway.Exec.{err}
use seemsim_esim_gateway.Db.{World}
use seemsim_esim_gateway.Db.Table.{find_row}
use seemsim_esim_gateway.Db.Repositories.Orders as OrderRepository
use seemsim_esim_gateway.Db.Repositories.Orders.{order_key}
use seemsim_esim_gateway.Providers.Base.{BaseEsimProvider}
use seemsim_esim_gateway.Services.Orders.{
  get_order, refresh_order_status, get_order_esims, cancel_order,
}

abbrev pub not_found : String → Exception
not_found order_id =
    new_error resource_not_found_error (append "Order " (append order_id " not found"))

module _ (rt : Runtime) (provider : BaseEsimProvider) (order_id : String) (w : World) where
  -- For an identifier that no stored order has, reading, refreshing, listing the eSIMs and cancelling
  -- all raise the same not-found error, call no provider and change nothing.
  pub unknown_order-refused :
      find_row order_key order_id w.orders ≡ none
      → (get_order rt provider order_id w ≡ (err (not_found order_id), w))
        × (refresh_order_status rt provider order_id w ≡ (err (not_found order_id), w))
        × (get_order_esims rt provider order_id w ≡ (err (not_found order_id), w))
        × (cancel_order rt provider order_id w ≡ (err (not_found order_id), w))
  unfolding get_order refresh_order_status get_order_esims cancel_order OrderRepository.get_by_id
  unknown_order-refused h =
      (ground (arith, h), ground (arith, h), ground (arith, h), ground (arith, h))
