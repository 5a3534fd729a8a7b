-- ===== src/Services/Orders/Topup.antt =====
-- What `topup_order` leaves behind where the provider accepts.
use seemsim_esim_gateway.Prelude.{
  ◌+◌, String, Option, none, some, [], ◌∷◌, ◌++◌, ◌≡◌, arith, eq_refl,
}
use seemsim_esim_gateway.Python.Runtime.{Runtime}
use seemsim_esim_gateway.Python.Json.{str, dict, end, field}
use seemsim_esim_gateway.Models.{ProviderOrder}
use seemsim_esim_gateway.Exec.{ok}
use seemsim_esim_gateway.Db.{World}
use seemsim_esim_gateway.Db.Table.{find_row, find-update_row, find-append_new}
use seemsim_esim_gateway.Db.Repositories.Orders as OrderRepository
use seemsim_esim_gateway.Db.Repositories.Orders.{order_key}
use seemsim_esim_gateway.Providers.Base.{BaseEsimProvider, ProviderTopupResult}
use seemsim_esim_gateway.Services.OrderRows.{topped_up}
use seemsim_esim_gateway.Services.Orders.{topup_order}

module _ (rt : Runtime) (provider : BaseEsimProvider) (order_id package_code iccid : String)
    (idempotency_key : Option String) (w : World) where
  -- A pending order for one package and this ICCID, under new identifiers.
  abbrev pub topup_row : ProviderOrder
  topup_row = record {
    id = rt.uuid4 (w.drawn + 1);
    provider_name = provider.provider_name;
    provider_order_no = none;
    transaction_id = rt.uuid4 w.drawn;
    package_code = package_code;
    quantity = 1;
    status = "pending";
    provider_status = none;
    iccid = some iccid;
    failure_reason = none;
    idempotency_key = idempotency_key;
    raw_provider_request =
        some (field "packageCode" (str package_code) (field "iccid" (str iccid) end));
    raw_provider_response = none;
    last_provider_sync_at = none;
    last_provider_payload = none;
    created_at = rt.utc_now w.reads;
  }

  -- If the provider accepts a top-up and the new identifier is not in use, the returned and the stored
  -- order have the number, the status and the answer of the provider, and one call was made. This
  -- holds for every identifier of an order, also where no such order is stored.
  pub topup_order-accepted :
      (result : ProviderTopupResult)
      → provider.topup_esim w.exchanges iccid package_code (rt.uuid4 w.drawn) ≡ ok result
      → find_row order_key topup_row.id w.orders ≡ none
      → let (r, w') = topup_order rt provider order_id package_code iccid idempotency_key w in
        let after = record topup_row {
          provider_order_no = result.order_no;
          status = result.status;
          raw_provider_response = some (dict result.raw);
        } in
        (r ≡ ok after)
        × (find_row order_key topup_row.id w'.orders ≡ some after)
        × (w'.exchanges ≡ w.exchanges + 1)
  unfolding topup_order OrderRepository.create OrderRepository.mutate
  topup_order-accepted result e new = ground (
    arith,
    e,
    find-update_row order_key topup_row.id (topped_up result) (λ _ k. k) topup_row.id
        (w.orders ++ topup_row ∷ []),
    eq_refl topup_row.id,
    find-append_new order_key w.orders topup_row new,
  )
