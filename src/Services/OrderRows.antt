-- ===== src/Services/OrderRows.antt =====
-- The rows that order.py writes, and its assignments to them.
use seemsim_esim_gateway.Prelude.{ℕ, String, Option, none, some, if◌then◌else◌, ◌==◌}
use seemsim_esim_gateway.Prelude.Int.{pos}
use seemsim_esim_gateway.Python.Json.{int, str, dict, Object, end, field}
use seemsim_esim_gateway.Errors.{Exception, message}
use seemsim_esim_gateway.Models.{ProviderOrder, OperationLog}
use seemsim_esim_gateway.Models.Esim.{
  Esim, smdp_address, matching_id, activation_code, msisdn, set_text,
}
use seemsim_esim_gateway.Providers.Base.{
  ProviderOrderResult, ProviderEsimProfile, ProviderTopupResult, ProviderCancelResult,
}

abbrev pub new_order :
    String
    → String
    → String
    → String
    → ℕ
    → Option String
    → Option String
    → Object
    → ℕ
    → ProviderOrder
new_order id provider_name transaction_id package_code quantity iccid idempotency_key request now =
    record {
      id = id;
      provider_name = provider_name;
      provider_order_no = none;
      transaction_id = transaction_id;
      package_code = package_code;
      quantity = quantity;
      status = "pending";
      provider_status = none;
      iccid = iccid;
      failure_reason = none;
      idempotency_key = idempotency_key;
      raw_provider_request = some request;
      raw_provider_response = none;
      last_provider_sync_at = none;
      last_provider_payload = none;
      created_at = now;
    }

-- The assignments after the provider accepted an order.
abbrev pub placed : ProviderOrderResult → ProviderOrder → ProviderOrder
placed result order = record order {
  provider_order_no = result.order_no;
  status = result.status;
  iccid = result.iccid;
  raw_provider_response = some (dict result.raw);
}

-- The assignments after the provider raised.
abbrev pub failed : Exception → ProviderOrder → ProviderOrder
failed exc order = record order { status = "failed"; failure_reason = some (message exc) }

abbrev pub creation_log :
    String → String → Option String → String → Object → Option Object → Option String → OperationLog
creation_log id provider_name idempotency_key status request response error_message = record {
  id = id;
  operation = "create_order";
  provider_name = provider_name;
  idempotency_key = idempotency_key;
  status = status;
  request_payload = some request;
  response_payload = response;
  error_message = error_message;
}

abbrev pub order_request : String → ℕ → Object
order_request package_code quantity =
    field "packageCode" (str package_code) (field "quantity" (int (pos quantity)) end)

abbrev pub topup_request : String → String → Object
topup_request package_code iccid =
    field "packageCode" (str package_code) (field "iccid" (str iccid) end)

-- What the object holds when it is returned: the row.
abbrev pub or_else : {A : Type 0} → Option A → A → A
or_else none a = a
or_else (some b) a = b

abbrev pub bare_esim : String → String → String → String → ℕ → Esim
bare_esim id iccid provider_name order_id now = record {
  id = id;
  iccid = iccid;
  provider_name = provider_name;
  order_id = order_id;
  status = "allocated";
  text = λ _. none;
  number = λ _. none;
  time = λ _. none;
  raw_provider_data = none;
  raw_provider_payload = none;
  created_at = now;
}

-- The assignments from a fetched profile.
abbrev pub with_profile : ProviderEsimProfile → Esim → Esim
with_profile profile esim =
    let e₁ = set_text smdp_address profile.smdp_address esim in
    let e₂ = set_text matching_id profile.matching_id e₁ in
    let e₃ = set_text activation_code profile.activation_code e₂ in
    let e₄ = set_text msisdn profile.msisdn e₃ in
    record e₄ {
      status = if profile.status == "" then "allocated" else profile.status;
      raw_provider_data = some profile.raw;
    }

-- The assignments after the provider accepted a top-up.
abbrev pub topped_up : ProviderTopupResult → ProviderOrder → ProviderOrder
topped_up result order = record order {
  provider_order_no = result.order_no;
  status = result.status;
  raw_provider_response = some (dict result.raw);
}

-- The assignments after the provider answered a cancellation; its status is not read.
abbrev pub cancelled : ProviderCancelResult → ProviderOrder → ProviderOrder
cancelled result order = record order {
  status = "cancelled";
  raw_provider_response = some result.raw;
}
