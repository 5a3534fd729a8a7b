-- ===== src/Tests/ServiceRuns.antt =====
-- Runs of the order and catalog services.
use seemsim_esim_gateway.Prelude.{true, none, some, [], ◌∷◌, All, ◌≡◌, refl}
use seemsim_esim_gateway.Errors.{message}
use seemsim_esim_gateway.Exec.{ok, err, returns}
use seemsim_esim_gateway.Models.{ProviderOrder}
use seemsim_esim_gateway.Db.{World, in_session}
use seemsim_esim_gateway.Db.Table.{find_row}
use seemsim_esim_gateway.Db.Repositories.Orders.{order_key}
use seemsim_esim_gateway.Services.Orders.{create_order, cancel_order}
use seemsim_esim_gateway.Services.OrderRows.{failed, order_request, creation_log}
use seemsim_esim_gateway.Services.Orders.Creation.{
  submitted, accepted_log, create_order-refused, create_order-accepted,
}
use seemsim_esim_gateway.Python.Json.{dict, end}
use seemsim_esim_gateway.Providers.Base.{BaseEsimProvider, ProviderTopupResult}
use seemsim_esim_gateway.Services.Orders.{topup_order}
use seemsim_esim_gateway.Services.Orders.Topup.{topup_row, topup_order-accepted}
use seemsim_esim_gateway.Services.Orders.Unknown.{not_found, unknown_order-refused}
use seemsim_esim_gateway.Services.Orders.{get_order, refresh_order_status, get_order_esims}
use seemsim_esim_gateway.Services.Orders.Cancellation.{cancel_order-cancels, cancel_order-raises}
use seemsim_esim_gateway.Services.Catalog.{CatalogSyncResponse, sync_catalog}
use seemsim_esim_gateway.Services.Catalog.Listed.{Active, sync_catalog-Listed}
use seemsim_esim_gateway.Services.Catalog.Active.{Offered, sync_catalog-Offered}
use seemsim_esim_gateway.Tests.Sample.{
  sample_runtime, accepting, refusing, refusal, accepted_order, cancel_answer, sample_package,
  order_with, no_tables, world_of, world_with, number, number_given,
}

abbrev start : World
start = world_of no_tables

-- The new row of the order.
abbrev new_row : ProviderOrder
new_row = submitted sample_runtime refusing "P1" 1 none start

create_order-refused_example :
    let (r, w') = create_order sample_runtime refusing "P1" 1 none start in
    let (s, w'') = in_session (create_order sample_runtime refusing "P1" 1 none) start in
    (r ≡ err refusal)
    × (find_row order_key "id-1" w'.orders ≡ some (failed refusal new_row))
    × (w'.operation_logs
        ≡ creation_log "id-2" "esim_access" none "failed"
            (order_request "P1" 1)
            none
            (some (message refusal))
          ∷ [])
    × (s ≡ err refusal)
    × (w''.tables ≡ no_tables)
unfolding find_row seemsim_esim_gateway.Python.Number.text_of_int
create_order-refused_example =
    create_order-refused sample_runtime refusing "P1" 1 none start refusal refl refl refl

create_order-accepted_example :
    let (r, w') = create_order sample_runtime accepting "P1" 1 none start in
    (returns r ≡ true)
    × (w'.operation_logs
        ≡ accepted_log sample_runtime accepting "P1" 1 none start accepted_order ∷ [])
create_order-accepted_example =
    create_order-accepted sample_runtime accepting "P1" 1 none start accepted_order refl refl

cancel_order-cancels_example :
    let (r, w') = cancel_order sample_runtime accepting "o1" (world_with "processing") in
    let after = record (order_with "cancelled") { raw_provider_response = some (dict end) } in
    (r ≡ ok after) × (find_row order_key "o1" w'.orders ≡ some after) × (w'.exchanges ≡ 1)
unfolding find_row
cancel_order-cancels_example =
    cancel_order-cancels sample_runtime accepting "o1" (world_with "processing")
      (order_with "processing") number cancel_answer refl refl refl number_given refl

cancel_order-raises_example :
    let (r, w') = cancel_order sample_runtime refusing "o1" (world_with "processing") in
    (r ≡ err refusal) × (w'.tables ≡ (world_with "processing").tables)
unfolding find_row
cancel_order-raises_example =
    cancel_order-raises sample_runtime refusing "o1" (world_with "processing")
      (order_with "processing") number refusal refl refl number_given refl

abbrev synced_one : CatalogSyncResponse
synced_one = record { products_synced = 1; packages_synced = 1; provider = "esim_access" }

sync_catalog-Offered_example :
    All (Offered ("P1" ∷ []) "esim_access") (sync_catalog accepting start).1.packages
unfolding sync_catalog seemsim_esim_gateway.Db.Repositories.Products.upsert_product find_row
    seemsim_esim_gateway.Db.Repositories.Products.upsert_package
    seemsim_esim_gateway.Db.Repositories.Products.deactivate_missing_packages
sync_catalog-Offered_example =
    sync_catalog-Offered accepting start (sample_package ∷ []) synced_one refl refl

unknown_order-refused_example :
    (get_order sample_runtime accepting "o9" start ≡ (err (not_found "o9"), start))
    × (refresh_order_status sample_runtime accepting "o9" start ≡ (err (not_found "o9"), start))
    × (get_order_esims sample_runtime accepting "o9" start ≡ (err (not_found "o9"), start))
    × (cancel_order sample_runtime accepting "o9" start ≡ (err (not_found "o9"), start))
unfolding find_row
unknown_order-refused_example = unknown_order-refused sample_runtime accepting "o9" start refl

sync_catalog-Listed_example :
    let (r, w') = sync_catalog accepting start in
    (returns r ≡ true) × All (λ d. Active d.package_code w') (sample_package ∷ [])
sync_catalog-Listed_example = sync_catalog-Listed accepting (sample_package ∷ []) start refl

abbrev topup_answer : ProviderTopupResult
topup_answer = record {
  order_no = some "B2";
  iccid = some "8901";
  package_code = "P1";
  status = "completed";
  raw = end;
}

-- A provider that accepts top-ups.
abbrev topping_up : BaseEsimProvider
topping_up = record accepting {
  topup_esim = λ n iccid package_code transaction_id. ok topup_answer;
}

abbrev new_topup : ProviderOrder
new_topup = topup_row sample_runtime topping_up "o9" "P1" "8901" none start

topup_order-accepted_example :
    let (r, w') = topup_order sample_runtime topping_up "o9" "P1" "8901" none start in
    let after = record new_topup {
      provider_order_no = some "B2";
      status = "completed";
      raw_provider_response = some (dict end);
    } in
    (r ≡ ok after) × (find_row order_key "id-1" w'.orders ≡ some after) × (w'.exchanges ≡ 1)
unfolding find_row seemsim_esim_gateway.Python.Number.text_of_int
topup_order-accepted_example =
    topup_order-accepted sample_runtime topping_up "o9" "P1" "8901" none start topup_answer refl
      refl
