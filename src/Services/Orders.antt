-- ===== src/Services/Orders.antt =====
-- app/services/order.py: `OrderService`. The duration of an operation is not modelled.
pub mod Creation
pub mod Cancellation
pub mod Unknown
pub mod Topup
use seemsim_esim_gateway.Prelude.{
  ℕ, String, Bool, true, false, Option, none, some, List, [], ◌∷◌, if◌then◌else◌, ◌==◌, ◌≡◌, refl,
}
use Prim.Native.String.{◌++◌ as append}
use seemsim_esim_gateway.Prelude.Int.{pos}
use seemsim_esim_gateway.Python.Json.{Value, int, str, dict, Object, end, field}
use seemsim_esim_gateway.Python.Runtime.{Runtime}
use seemsim_esim_gateway.Errors.{Exception, message, new_error, resource_not_found_error}
use seemsim_esim_gateway.Models.{ProviderOrder, OperationLog}
use seemsim_esim_gateway.Models.Esim.{
  Esim, EsimStatusHistory, smdp_address, matching_id, activation_code, msisdn, set_text,
}
use seemsim_esim_gateway.Exec.{
  Exec, Result, ok, err, lift, raise, attempt, pure, try_except_provider, ◌>>=◌, ◌>>◌,
}
use seemsim_esim_gateway.Db.{M, World, uuid4, utc_now, call}
use seemsim_esim_gateway.Db.Repositories.Orders
use seemsim_esim_gateway.Db.Repositories.Esims
use seemsim_esim_gateway.Providers.Base.{
  BaseEsimProvider, ProviderOrderResult, ProviderEsimProfile, ProviderTopupResult,
  ProviderCancelResult,
}
use seemsim_esim_gateway.Sync.Order.{sync_order, SyncResult, unchanged, is_blank}
use seemsim_esim_gateway.Services.OrderRows.{
  new_order, placed, failed, creation_log, order_request, topup_request, or_else, bare_esim,
  with_profile, topped_up, cancelled,
}

module _ (rt : Runtime) (provider : BaseEsimProvider) where
  -- The profile is fetched; a `ProviderError` leaves the eSIM as it is.
  fetch_profile : Esim → M Esim
  fetch_profile esim =
      try_except_provider
        (do profile ← call (λ n. provider.get_esim n esim.iccid); pure (with_profile profile esim))
        (λ _. pure esim)

  -- The eSIM is created with its first audit row, if none with its number was found.
  create_unless_found : ProviderOrder → String → Option Esim → M Esim
  unfolding fetch_profile
  create_unless_found order iccid (some existing) = pure existing
  create_unless_found order iccid none = do
    esim_id ← uuid4 rt
    now ← utc_now rt
    esim ← fetch_profile (bare_esim esim_id iccid provider.provider_name order.id now)
    Esims.create esim
    history_id ← uuid4 rt
    Esims.add_status_history (record {
      id = history_id;
      esim_id = esim_id;
      iccid = iccid;
      previous_status = none;
      new_status = esim.status;
      source = "order_creation";
      recorded_at = esim.created_at;
    })
    pure esim

  -- `_create_esim_from_order`
  unfoldable pub create_esim_from_order : ProviderOrder → String → M Esim
  unfolding create_unless_found
  create_esim_from_order order iccid = do
    existing ← Esims.get_by_iccid iccid
    create_unless_found order iccid existing

  -- `if result.iccid: await self._create_esim_from_order(order, result.iccid)`
  unfoldable pub esim_of_result : ProviderOrder → Option String → M (Unit {0})
  esim_of_result order none = pure tt
  esim_of_result order (some iccid) =
      if iccid == "" then pure tt else do create_esim_from_order order iccid; pure tt

  -- The body of the outer `try` of `create_order`.
  unfoldable pub place_order : ProviderOrder → String → M ProviderOrder
  unfolding esim_of_result
  place_order order op_log_id = do
    result ←
        call (λ n. provider.create_order n order.package_code order.quantity order.transaction_id)
    let accepted = placed result order
    Orders.mutate order.id (λ _. accepted)
    esim_of_result accepted result.iccid
    Orders.add_operation_log (
        creation_log op_log_id provider.provider_name order.idempotency_key "success"
          (order_request order.package_code order.quantity) (some result.raw) none)
    attempt (sync_order rt provider accepted "post_order_sync")
    stored ← Orders.get_by_id order.id
    pure (or_else stored accepted)

  -- The handler of the outer `try` of `create_order`.
  unfoldable pub order_failed : ProviderOrder → String → Exception → M ProviderOrder
  order_failed order op_log_id exc = do
    Orders.mutate order.id (failed exc)
    Orders.add_operation_log (
        creation_log op_log_id provider.provider_name order.idempotency_key "failed"
          (order_request order.package_code order.quantity) none (some (message exc)))
    raise exc

  -- `create_order`
  unfoldable pub create_order : String → ℕ → Option String → M ProviderOrder
  unfolding place_order order_failed
  create_order package_code quantity idempotency_key = do
    transaction_id ← uuid4 rt
    order_id ← uuid4 rt
    now ← utc_now rt
    let order =
        new_order order_id provider.provider_name transaction_id package_code quantity none
          idempotency_key (order_request package_code quantity) now
    Orders.create order
    op_log_id ← uuid4 rt
    try_except_provider (place_order order op_log_id) (order_failed order op_log_id)

  abbrev pub found_order : String → Option ProviderOrder → M ProviderOrder
  found_order order_id none =
      raise (new_error resource_not_found_error (append "Order " (append order_id " not found")))
  found_order order_id (some order) = pure order

  -- `get_order`
  unfoldable pub get_order : String → M ProviderOrder
  get_order order_id = do order ← Orders.get_by_id order_id; found_order order_id order

  -- `refresh_order_status`
  unfoldable pub refresh_order_status : String → M SyncResult
  unfolding get_order
  refresh_order_status order_id = do
    order ← get_order order_id
    if is_blank order.provider_order_no
        then pure (unchanged order)
        else sync_order rt provider order "manual_refresh"

  -- `get_order_esims`
  unfoldable pub get_order_esims : String → M (List Esim)
  unfolding get_order
  get_order_esims order_id = do get_order order_id; Esims.get_by_order_id order_id

  place_topup : ProviderOrder → String → M ProviderOrder
  place_topup order iccid = do
    result ← call (λ n. provider.topup_esim n iccid order.package_code order.transaction_id)
    Orders.mutate order.id (topped_up result)
    pure (topped_up result order)

  topup_failed : ProviderOrder → Exception → M ProviderOrder
  topup_failed order exc = do Orders.mutate order.id (failed exc); raise exc

  -- `topup_order`
  unfoldable pub topup_order : String → String → String → Option String → M ProviderOrder
  unfolding place_topup topup_failed
  topup_order order_id package_code iccid idempotency_key = do
    transaction_id ← uuid4 rt
    topup_order_id ← uuid4 rt
    now ← utc_now rt
    let order =
        new_order topup_order_id provider.provider_name transaction_id package_code 1 (some iccid)
          idempotency_key (topup_request package_code iccid) now
    Orders.create order
    try_except_provider (place_topup order iccid) (topup_failed order)

  cancel_by : ProviderOrder → Option String → M ProviderOrder
  cancel_by order none =
      raise (new_error resource_not_found_error "Cannot cancel order without provider order number")
  cancel_by order (some order_no) =
      if order_no == ""
      then raise
          (new_error resource_not_found_error "Cannot cancel order without provider order number")
      else do
        result ← call (λ n. provider.cancel_order n order_no)
        Orders.mutate order.id (λ _. cancelled result order)
        pure (cancelled result order)

  -- `cancel_order`
  unfoldable pub cancel_order : String → M ProviderOrder
  unfolding cancel_by get_order
  cancel_order order_id = do order ← get_order order_id; cancel_by order order.provider_order_no
