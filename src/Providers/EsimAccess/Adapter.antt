-- ===== src/Providers/EsimAccess/Adapter.antt =====
-- app/providers/esim_access/adapter.py: `EsimAccessProvider`, the operations of the provider's
-- interface over the client.
use seemsim_esim_gateway.Prelude.{ℕ, String, none, List, if◌then◌else◌}
use seemsim_esim_gateway.Prelude.Int.{pos}
use seemsim_esim_gateway.Python.Json.{
  Value, int, str, list, dict, nil, cons, Object, end, field, get, get_or, truthy, ◌or◌,
}
use seemsim_esim_gateway.Python.Runtime.{Runtime, str_or_empty}
use seemsim_esim_gateway.Errors.{new_error, provider_capability_unavailable_error}
use seemsim_esim_gateway.Exec.{Result, ok, err}
use seemsim_esim_gateway.Providers.Base.{
  BaseEsimProvider, ProviderPackageData, ProviderOrderResult, ProviderEsimProfile,
  ProviderEsimStatus, ProviderTopupResult, ProviderCancelResult, ProviderBalance,
}
use seemsim_esim_gateway.Providers.EsimAccess.Auth.{EsimAccessAuth, Http}
use seemsim_esim_gateway.Providers.EsimAccess.Client.{request}
use seemsim_esim_gateway.Providers.EsimAccess.Normalize.{◌>>=◌, as_text, as_int, handle_webhook}
use seemsim_esim_gateway.Providers.EsimAccess.Answers.{
  obj_of, first_record, pager, map_packages, array_or_empty, profile_of, status_of, order_result_of,
  balance_of,
}

module _ (rt : Runtime) (http : Http) (auth : EsimAccessAuth) where
  abbrev post : ℕ → String → Object → Result Object
  post n path payload = request rt http auth n path payload

  -- `sync_products`
  unfoldable pub sync_products : ℕ → Result (List ProviderPackageData)
  unfolding map_packages
  sync_products n = do
    answer ← post n "/api/v1/open/package/list" end
    obj ← obj_of answer
    map_packages rt (array_or_empty (get_or obj "packageList" (list nil)))

  -- `create_order`
  unfoldable pub create_order : ℕ → String → ℕ → String → Result ProviderOrderResult
  create_order n package_code quantity transaction_id = do
    answer ← post n "/api/v1/open/esim/order" (
        field "transactionId" (str transaction_id) (
          field "packageInfoList"
            (list (
              cons
                (dict
                  (field "packageCode" (str package_code) (field "count" (int (pos quantity)) end)))
                nil))
            end))
    obj ← obj_of answer
    order_no ← as_text (get_or obj "orderNo" (str ""))
    ok (record {
      order_no = order_no;
      transaction_id = transaction_id;
      status = "pending";
      iccid = none;
      raw = obj;
    })

  -- `get_order_status`
  unfoldable pub get_order_status : ℕ → String → Result ProviderOrderResult
  unfolding order_result_of
  get_order_status n order_no = do
    answer ←
        post n "/api/v1/open/esim/query"
          (field "orderNo" (str order_no) (field "pager" (pager 5) end))
    obj ← obj_of answer
    entry ← first_record (get obj "esimList")
    order_result_of rt order_no entry

  -- `get_esim`
  unfoldable pub get_esim : ℕ → String → Result ProviderEsimProfile
  unfolding profile_of
  get_esim n iccid = do
    answer ←
        post n "/api/v1/open/esim/query" (field "iccid" (str iccid) (field "pager" (pager 5) end))
    obj ← obj_of answer
    entry ← first_record (get obj "esimList")
    profile_of rt iccid entry

  -- `get_esim_status`
  unfoldable pub get_esim_status : ℕ → String → Result ProviderEsimStatus
  unfolding status_of
  get_esim_status n iccid = do
    answer ←
        post n "/api/v1/open/esim/query" (field "iccid" (str iccid) (field "pager" (pager 5) end))
    obj ← obj_of answer
    entry ← first_record (get obj "esimList")
    ok (status_of rt iccid entry)

  -- `topup_esim`
  unfoldable pub topup_esim : ℕ → String → String → String → Result ProviderTopupResult
  topup_esim n iccid package_code transaction_id = do
    answer ← post n "/api/v1/open/esim/topup" (
        field "iccid" (str iccid)
          (field "packageCode" (str package_code) (field "transactionId" (str transaction_id) end)))
    obj ← obj_of answer
    order_no ← as_text (get_or obj "orderNo" (str ""))
    number ← as_text (get_or obj "iccid" (str iccid))
    ok (record {
      order_no = order_no;
      iccid = number;
      package_code = package_code;
      status = if truthy (get answer "success") then "completed" else "failed";
      raw = obj;
    })

  -- `cancel_order`
  unfoldable pub cancel_order : ℕ → String → Result ProviderCancelResult
  cancel_order n order_no = do
    answer ← post n "/api/v1/open/esim/cancel" (field "iccid" (str order_no) end)
    ok (record {
      order_no = order_no;
      status = if truthy (get answer "success") then "cancelled" else "failed";
      message = str_or_empty rt (get answer "errorMsg");
      raw = get answer "obj" or dict end;
    })

  -- `get_balance`
  unfoldable pub get_balance : ℕ → Result ProviderBalance
  unfolding balance_of
  get_balance n = do
    answer ← post n "/api/v1/open/balance/query" end
    obj ← obj_of answer
    let raw_balance = get_or obj "balance" (int (pos 0))
    ok (record {
      balance_raw = raw_balance;
      balance_usd = balance_of (as_int raw_balance);
      raw = obj;
    })

  -- `query_order_full`
  unfoldable pub query_order_full : ℕ → String → Result Value
  query_order_full n order_no = do
    answer ←
        post n "/api/v1/open/esim/query"
          (field "orderNo" (str order_no) (field "pager" (pager 500) end))
    ok (get answer "obj" or dict end)

  -- `EsimAccessProvider`
  unfoldable pub esim_access_provider : BaseEsimProvider
  unfolding sync_products create_order get_order_status get_esim get_esim_status topup_esim
      cancel_order get_balance query_order_full
  esim_access_provider = record {
    provider_name = "esim_access";
    sync_products = sync_products;
    create_order = create_order;
    get_order_status = get_order_status;
    get_esim = get_esim;
    get_esim_status = get_esim_status;
    topup_esim = topup_esim;
    cancel_order = cancel_order;
    suspend_esim = λ n iccid. err (
        new_error provider_capability_unavailable_error
          "eSIM suspension is not documented in the eSIM Access API.");
    get_balance = get_balance;
    query_order_full = query_order_full;
    handle_webhook = handle_webhook rt;
  }
