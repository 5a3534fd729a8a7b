-- ===== src/Models.antt =====
-- app/models: the rows of the tables. `created_at` is kept where a query orders by it; `updated_at`
-- is not modelled.
pub mod Esim
pub mod Product
use seemsim_esim_gateway.Prelude.{ℕ, String, Bool, Option}
use seemsim_esim_gateway.Python.Json.{Value, Object}

pub record ProviderOrder : Type 0 where
  pub id : String
  pub provider_name : String
  pub provider_order_no : Option String
  pub transaction_id : String
  pub package_code : String
  pub quantity : ℕ
  pub status : String
  pub provider_status : Option String
  pub iccid : Option String
  pub failure_reason : Option String
  pub idempotency_key : Option String
  pub raw_provider_request : Option Object
  pub raw_provider_response : Option Value
  pub last_provider_sync_at : Option ℕ
  pub last_provider_payload : Option Object
  pub created_at : ℕ

pub record OrderStateHistory : Type 0 where
  pub id : String
  pub order_id : String
  pub old_status : Option String
  pub new_status : Option String
  pub old_provider_status : Option String
  pub new_provider_status : Option String
  pub source : String
  pub payload_json : Option Object

pub record OperationLog : Type 0 where
  pub id : String
  pub operation : String
  pub provider_name : String
  pub idempotency_key : Option String
  pub status : String
  pub request_payload : Option Object
  pub response_payload : Option Object
  pub error_message : Option String

pub record ProviderWebhookEvent : Type 0 where
  pub id : String
  pub provider_name : String
  pub event_type : String
  pub order_no : Option String
  pub iccid : Option String
  pub transaction_id : Option String
  pub payload : Object
  pub processed : Bool
  pub processing_status : String
  pub processing_error : Option String
  pub processed_at : Option ℕ
