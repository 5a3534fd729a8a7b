-- ===== src/Tests/Sample.antt =====
-- Sample data for the runs: a runtime, a provider, orders, eSIMs and events.
use Prim.Native.String.{◌++◌ as append}
use seemsim_esim_gateway.Prelude.{◌+◌, String, true, none, some, [], ◌∷◌, ◌≢◌, arith, eq_iff}
use seemsim_esim_gateway.Prelude.Int.{pos}
use seemsim_esim_gateway.Python.Json.{null, str, list, dict, nil, cons, Object, end, field}
use seemsim_esim_gateway.Python.Number.{text_of_int}
use seemsim_esim_gateway.Python.Runtime.{Runtime}
use seemsim_esim_gateway.Errors.{Exception, new_error, provider_timeout_error}
use seemsim_esim_gateway.Exec.{Result, ok, err}
use seemsim_esim_gateway.Models.{ProviderOrder, ProviderWebhookEvent}
use seemsim_esim_gateway.Models.Esim.{Esim}
use seemsim_esim_gateway.Db.{Tables, World}
use seemsim_esim_gateway.Providers.Base.{
  BaseEsimProvider, ProviderPackageData, ProviderOrderResult, ProviderCancelResult,
  NormalizedWebhook,
}

abbrev pub sample_runtime : Runtime
sample_runtime = record {
  repr = λ v. "{...}";
  fromisoformat = λ s. none;
  uuid4 = λ n. append "id-" (text_of_int (pos n));
  utc_now = λ n. 1000000000 + n;
}

-- What the provider reports of one eSIM.
abbrev pub esim_entry : Object
esim_entry =
    field "iccid" (str "8901") (field "esimStatus" (str "IN_USE") (field "imsi" (str "46000") end))

abbrev pub query_answer : Object
query_answer = field "esimList" (list (cons (dict esim_entry) nil)) end

abbrev pub refusal : Exception
refusal = new_error provider_timeout_error "late"

abbrev pub accepted_order : ProviderOrderResult
accepted_order = record {
  order_no = some "B1";
  transaction_id = "t";
  status = "processing";
  iccid = none;
  raw = field "orderNo" (str "B1") end;
}

abbrev pub cancel_answer : ProviderCancelResult
cancel_answer = record { order_no = "B1"; status = "failed"; message = ""; raw = dict end }

abbrev pub sample_package : ProviderPackageData
sample_package = record {
  package_code = "P1";
  name = "One";
  type = "BASE";
  data_volume_mb = some (pos 1024);
  duration_days = some (pos 7);
  price = pos 18000;
  currency = "USD";
  countries = "FR" ∷ [];
  location_code = some "FR";
  raw = end;
}

abbrev pub order_event : NormalizedWebhook
order_event = record {
  event_type = "ORDER_STATUS";
  order_no = some "B1";
  iccid = none;
  transaction_id = none;
  esim_status = none;
  smdp_status = none;
  lpa = null;
  package_code = null;
  package_name = null;
  price = null;
  currency = null;
  status = "processing";
  total_volume = null;
  order_usage = null;
  remain = null;
  remain_threshold = null;
  duration_unit = null;
  expired_time = null;
  total_duration = null;
  raw = end;
}

-- A provider that accepts what it is asked, and one that refuses orders and cancellations.
abbrev pub accepting : BaseEsimProvider
accepting = record {
  provider_name = "esim_access";
  sync_products = λ n. ok (sample_package ∷ []);
  create_order = λ n package_code quantity transaction_id. ok accepted_order;
  get_order_status = λ n order_no. err refusal;
  get_esim = λ n iccid. err refusal;
  get_esim_status = λ n iccid. err refusal;
  topup_esim = λ n iccid package_code transaction_id. err refusal;
  cancel_order = λ n order_no. ok cancel_answer;
  suspend_esim = λ n iccid. err refusal;
  get_balance = λ n. err refusal;
  query_order_full = λ n order_no. ok (dict query_answer);
  handle_webhook = λ payload. ok order_event;
}

abbrev pub refusing : BaseEsimProvider
refusing = record accepting {
  create_order = λ n package_code quantity transaction_id. err refusal;
  cancel_order = λ n order_no. err refusal;
}

-- An order with this status and the number B1.
abbrev pub order_with : String → ProviderOrder
order_with status = record {
  id = "o1";
  provider_name = "esim_access";
  provider_order_no = some "B1";
  transaction_id = "t1";
  package_code = "P1";
  quantity = 1;
  status = status;
  provider_status = none;
  iccid = none;
  failure_reason = none;
  idempotency_key = none;
  raw_provider_request = none;
  raw_provider_response = none;
  last_provider_sync_at = none;
  last_provider_payload = none;
  created_at = 5;
}

abbrev pub sample_esim : Esim
sample_esim = record {
  id = "e1";
  iccid = "8901";
  provider_name = "esim_access";
  order_id = "o1";
  status = "unknown";
  text = λ c. none;
  number = λ c. none;
  time = λ c. none;
  raw_provider_data = none;
  raw_provider_payload = none;
  created_at = 5;
}

-- A processed event for the order with the number B1.
abbrev pub processed_event : ProviderWebhookEvent
processed_event = record {
  id = "w1";
  provider_name = "esim_access";
  event_type = "ORDER_STATUS";
  order_no = some "B1";
  iccid = none;
  transaction_id = none;
  payload = end;
  processed = true;
  processing_status = "processed";
  processing_error = none;
  processed_at = some 7;
}

abbrev pub no_tables : Tables
no_tables = record {
  orders = [];
  esims = [];
  order_state_history = [];
  esim_status_history = [];
  operation_logs = [];
  webhook_events = [];
  products = [];
  packages = [];
}

abbrev pub world_of : Tables → World
world_of t = record { tables = t; drawn = 0; reads = 0; exchanges = 0 }

-- A world with one order of this status.
abbrev pub world_with : String → World
world_with status = world_of (record no_tables { orders = order_with status ∷ [] })

-- What a run returned.
abbrev pub value_of : {A : Type 0} → Result A → A → A
value_of (ok a) default = a
value_of (err e) default = default

abbrev pub number : String
number = "B1"

pub number_given : number ≢ ""
number_given e = absurd (ground (arith, eq_iff number "", e))
