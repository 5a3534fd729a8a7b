-- ===== src/Schemas/Order.antt =====
-- app/schemas/order.py.
use seemsim_esim_gateway.Prelude.{ℕ, String, Bool, Option, List, leb, ◌&&◌}
use seemsim_esim_gateway.Models.{ProviderOrder}
use seemsim_esim_gateway.Schemas.Esim.{EsimDetailOut}

-- `CreateOrderRequest`
pub record CreateOrderRequest : Type 0 where
  pub package_code : String
  pub quantity : ℕ

-- `ge=1, le=50`
abbrev pub is_valid : CreateOrderRequest → Bool
is_valid body = leb 1 body.quantity && leb body.quantity 50

-- `TopupRequest`
pub record TopupRequest : Type 0 where
  pub package_code : String
  pub iccid : String

-- `OrderOut`
pub record OrderOut : Type 0 where
  pub id : String
  pub provider_order_no : Option String
  pub transaction_id : String
  pub package_code : String
  pub quantity : ℕ
  pub status : String
  pub provider_status : Option String
  pub iccid : Option String
  pub failure_reason : Option String
  pub last_provider_sync_at : Option ℕ
  pub created_at : ℕ

-- `OrderOut.model_validate(order)`
abbrev pub order_out : ProviderOrder → OrderOut
order_out order = record {
  id = order.id;
  provider_order_no = order.provider_order_no;
  transaction_id = order.transaction_id;
  package_code = order.package_code;
  quantity = order.quantity;
  status = order.status;
  provider_status = order.provider_status;
  iccid = order.iccid;
  failure_reason = order.failure_reason;
  last_provider_sync_at = order.last_provider_sync_at;
  created_at = order.created_at;
}

-- `OrderDetailOut`: the fields of `OrderOut`, and the eSIMs.
pub record OrderDetailOut : Type 0 where
  pub order : OrderOut
  pub esims : List EsimDetailOut

-- `OrderRefreshResponse`
pub record OrderRefreshResponse : Type 0 where
  pub order : OrderDetailOut
  pub state_changed : Bool
  pub source : String

-- `TopupResponse`
pub record TopupResponse : Type 0 where
  pub order_id : String
  pub iccid : String
  pub package_code : String
  pub status : String

-- `CancelOrderResponse`
pub record CancelOrderResponse : Type 0 where
  pub order_id : String
  pub status : String
  pub message : String
