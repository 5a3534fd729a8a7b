-- ===== src/Schemas/Product.antt =====
-- app/schemas/product.py. A price is in ten-thousandths of the currency unit.
use seemsim_esim_gateway.Prelude.{ℕ, String, Bool, Option, List, map, length}
use seemsim_esim_gateway.Prelude.Int.{ℤ}
use seemsim_esim_gateway.Models.Product.{ProviderProduct, ProviderPackage}

-- `PackageOut`
pub record PackageOut : Type 0 where
  pub id : String
  pub product_id : String
  pub package_code : String
  pub name : String
  pub type : String
  pub data_volume_mb : Option ℤ
  pub duration_days : Option ℤ
  pub price : ℤ
  pub currency : String
  pub countries : List String
  pub is_active : Bool

-- `PackageOut.model_validate(pkg)`
abbrev pub package_out : ProviderPackage → PackageOut
package_out pkg = record {
  id = pkg.id;
  product_id = pkg.product_id;
  package_code = pkg.package_code;
  name = pkg.name;
  type = pkg.type;
  data_volume_mb = pkg.data_volume_mb;
  duration_days = pkg.duration_days;
  price = pkg.price;
  currency = pkg.currency;
  countries = pkg.countries;
  is_active = pkg.is_active;
}

-- `ProductOut`
pub record ProductOut : Type 0 where
  pub id : String
  pub name : String
  pub description : Option String
  pub location_code : Option String
  pub is_active : Bool
  pub packages : List PackageOut

-- `ProductListOut`
pub record ProductListOut : Type 0 where
  pub id : String
  pub name : String
  pub location_code : Option String
  pub is_active : Bool
  pub package_count : ℕ

-- `ProductOut.model_validate(product)`, for the product and its packages.
abbrev pub product_out : ProviderProduct × List ProviderPackage → ProductOut
product_out (product, packages) = record {
  id = product.id;
  name = product.name;
  description = product.description;
  location_code = product.location_code;
  is_active = product.is_active;
  packages = map package_out packages;
}

-- One item of `list_products` of app/api/v1/catalog.py.
abbrev pub product_list_out : ProviderProduct × List ProviderPackage → ProductListOut
product_list_out (product, packages) = record {
  id = product.id;
  name = product.name;
  location_code = product.location_code;
  is_active = product.is_active;
  package_count = length packages;
}
