-- ===== src/Models/Product.antt =====
-- app/models/product.py. A price is held in ten-thousandths of the currency unit, as the provider
-- sends it.
use seemsim_esim_gateway.Prelude.{String, Bool, Option, List}
use seemsim_esim_gateway.Prelude.Int.{ℤ}
use seemsim_esim_gateway.Python.Json.{Object}

pub record ProviderProduct : Type 0 where
  pub id : String
  pub provider_name : String
  pub name : String
  pub description : Option String
  pub location_code : Option String
  pub is_active : Bool

pub record ProviderPackage : Type 0 where
  pub id : String
  pub product_id : String
  pub provider_name : String
  pub package_code : String
  pub name : String
  pub type : String
  pub data_volume_mb : Option ℤ
  pub duration_days : Option ℤ
  pub price : ℤ
  pub currency : String
  pub countries : List String
  pub is_active : Bool
  pub raw_provider_data : Object
