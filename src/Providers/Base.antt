-- ===== src/Providers/Base.antt =====
-- app/providers/base.py: the results of a provider's operations, and the interface that the services
-- use. An operation that talks to the provider also takes the number of its exchange, so that two
-- calls with the same arguments may have different outcomes.
use seemsim_esim_gateway.Prelude.{ℕ, String, Option, List}
use seemsim_esim_gateway.Prelude.Int.{ℤ}
use seemsim_esim_gateway.Python.Json.{Value, Object}
use seemsim_esim_gateway.Exec.{Result}

pub record ProviderPackageData : Type 0 where
  pub package_code : String
  pub name : String
  pub type : String
  pub data_volume_mb : Option ℤ
  pub duration_days : Option ℤ
  pub price : ℤ
  pub currency : String
  pub countries : List String
  pub location_code : Option String
  pub raw : Object

-- The order number is a text column that may be null.
pub record ProviderOrderResult : Type 0 where
  pub order_no : Option String
  pub transaction_id : String
  pub status : String
  pub iccid : Option String
  pub raw : Object

pub record ProviderEsimProfile : Type 0 where
  pub iccid : String
  pub smdp_address : Option String
  pub matching_id : Option String
  pub activation_code : Option String
  pub status : String
  pub msisdn : Option String
  pub raw : Object

-- The remaining data is kept in bytes; the source divides it by 2 ^ 20.
pub record ProviderEsimStatus : Type 0 where
  pub iccid : String
  pub status : String
  pub data_usage_remaining_bytes : Option ℤ
  pub days_remaining : Option ℤ
  pub raw : Object

pub record ProviderTopupResult : Type 0 where
  pub order_no : Option String
  pub iccid : Option String
  pub package_code : String
  pub status : String
  pub raw : Object

pub record ProviderCancelResult : Type 0 where
  pub order_no : String
  pub status : String
  pub message : String
  pub raw : Value

-- The dict that `get_balance` returns; the balance is kept in ten-thousandths.
pub record ProviderBalance : Type 0 where
  pub balance_raw : Value
  pub balance_usd : ℤ
  pub raw : Object

-- The dict that `handle_webhook` returns; its keys are always the same. What must be a text column is
-- a text here.
pub record NormalizedWebhook : Type 0 where
  pub event_type : String
  pub order_no : Option String
  pub iccid : Option String
  pub transaction_id : Option String
  pub esim_status : Option String
  pub smdp_status : Option String
  pub lpa : Value
  pub package_code : Value
  pub package_name : Value
  pub price : Value
  pub currency : Value
  pub status : String
  pub total_volume : Value
  pub order_usage : Value
  pub remain : Value
  pub remain_threshold : Value
  pub duration_unit : Value
  pub expired_time : Value
  pub total_duration : Value
  pub raw : Object

pub record BaseEsimProvider : Type 0 where
  pub provider_name : String
  pub sync_products : ℕ → Result (List ProviderPackageData)
  pub create_order : ℕ → String → ℕ → String → Result ProviderOrderResult
  pub get_order_status : ℕ → String → Result ProviderOrderResult
  pub get_esim : ℕ → String → Result ProviderEsimProfile
  pub get_esim_status : ℕ → String → Result ProviderEsimStatus
  pub topup_esim : ℕ → String → String → String → Result ProviderTopupResult
  pub cancel_order : ℕ → String → Result ProviderCancelResult
  pub suspend_esim : ℕ → String → Result ProviderCancelResult
  pub get_balance : ℕ → Result ProviderBalance
  pub query_order_full : ℕ → String → Result Value
  pub handle_webhook : Object → Result NormalizedWebhook
