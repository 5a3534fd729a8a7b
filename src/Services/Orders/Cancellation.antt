-- ===== src/Services/Orders/Cancellation.antt =====
-- What `cancel_order` does with the answer of the provider, and without one.
use seemsim_esim_gateway.Prelude.{◌+◌, String, some, ◌≡◌, ◌≢◌, arith, eq_iff, eq_refl}
use seemsim_esim_gateway.Python.Runtime.{Runtime}
use seemsim_esim_gateway.Errors.{Exception}
use seemsim_esim_gateway.Models.{ProviderOrder}
use seemsim_esim_gateway.Exec.{ok, err}
use seemsim_esim_gateway.Db.{World}
use seemsim_esim_gateway.Db.Table.{find_row, find-update_row}
use seemsim_esim_gateway.Db.Repositories.Orders as OrderRepository
use seemsim_esim_gateway.Db.Repositories.Orders.{order_key}
use seemsim_esim_gateway.Providers.Base.{BaseEsimProvider, ProviderCancelResult}
use seemsim_esim_gateway.Services.Orders.{cancel_order}
use seemsim_esim_gateway.Services.OrderRows.{cancelled}

module _ (rt : Runtime) (provider : BaseEsimProvider) (order_id : String) (w : World) where
  -- An order that is stored with a number is cancelled by one call of the provider with that number.
  -- If the call returns, the returned and the stored order are the old one with the status "cancelled"
  -- and the raw answer, also where the status of the answer is not "cancelled".
  pub cancel_order-cancels :
      (order : ProviderOrder) (order_no : String) (result : ProviderCancelResult)
      → find_row order_key order_id w.orders ≡ some order
      → order.id ≡ order_id
      → order.provider_order_no ≡ some order_no
      → order_no ≢ ""
      → provider.cancel_order w.exchanges order_no ≡ ok result
      → let (r, w') = cancel_order rt provider order_id w in
        let after = record order {
          status = "cancelled";
          raw_provider_response = some result.raw;
        } in
        (r ≡ ok after)
        × (find_row order_key order_id w'.orders ≡ some after)
        × (w'.exchanges ≡ w.exchanges + 1)
  unfolding cancel_order OrderRepository.get_by_id OrderRepository.mutate
  cancel_order-cancels order order_no result row same number given e = ground (
    arith,
    eq_iff order_no "",
    eq_refl order_id,
    find-update_row order_key order_id (λ _. cancelled result order) (λ _ _. same) order_id
        w.orders,
  )

  -- If the provider's call raises, its exception goes on and no table changes.
  pub cancel_order-raises :
      (order : ProviderOrder) (order_no : String) (exc : Exception)
      → find_row order_key order_id w.orders ≡ some order
      → order.provider_order_no ≡ some order_no
      → order_no ≢ ""
      → provider.cancel_order w.exchanges order_no ≡ err exc
      → let (r, w') = cancel_order rt provider order_id w in (r ≡ err exc) × (w'.tables ≡ w.tables)
  unfolding cancel_order OrderRepository.get_by_id
  cancel_order-raises order order_no exc row number given e = ground (arith, eq_iff order_no "")
