-- ===== src/Schemas.antt =====
-- app/schemas: what the endpoints answer, and how a row is rendered (`model_validate`). The times that
-- the rows do not keep, `updated_at` and the `created_at` of products, are left out.
pub mod Order
pub mod Esim
pub mod Product
use seemsim_esim_gateway.Prelude.{ℕ, String, Bool, true, Option, none, some, List}

-- `ErrorDetail`
pub record ErrorDetail : Type 0 where
  pub error_code : String
  pub detail : String

-- `ApiResponse`
pub record ApiResponse (T : Type 0) : Type 0 where
  pub success : Bool
  pub data_ : Option T
  pub error : Option ErrorDetail

-- `ApiResponse(data=…)`
abbrev pub api_response : {T : Type 0} → T → ApiResponse T
api_response d = record { success = true; data_ = some d; error = none }

-- `HealthResponse`; the checks are the dict of their names and outcomes.
pub record HealthResponse : Type 0 where
  pub status : String
  pub service : String
  pub timestamp : ℕ
  pub checks : Option (List (String × String))

-- `WebhookResponse`
pub record WebhookResponse : Type 0 where
  pub received : Bool
  pub event_id : Option String
