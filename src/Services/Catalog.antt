-- ===== src/Services/Catalog.antt =====
-- app/services/catalog.py: `CatalogService`.
pub mod Active
pub mod Listed
use seemsim_esim_gateway.Prelude.{
  ℕ, zero, suc, ◌+◌, String, Bool, true, false, Option, none, some, List, [], ◌∷◌, ◌++◌, contains,
  length, if◌then◌else◌, ◌==◌, ◌≡◌, refl,
}
use Prim.Native.String.{◌++◌ as append}
use seemsim_esim_gateway.Models.Product.{ProviderProduct, ProviderPackage}
use seemsim_esim_gateway.Exec.{Exec, Result, ok, err, pure, ◌>>=◌, ◌>>◌}
use seemsim_esim_gateway.Db.{M, World, call}
use seemsim_esim_gateway.Db.Repositories.Products
use seemsim_esim_gateway.Providers.Base.{BaseEsimProvider, ProviderPackageData}

pub record CatalogSyncResponse : Type 0 where
  pub products_synced : ℕ
  pub packages_synced : ℕ
  pub provider : String

-- `pkg_data.location_code or "GLOBAL"`
abbrev pub location_of : Option String → String
location_of none = "GLOBAL"
location_of (some s) = if s == "" then "GLOBAL" else s

abbrev pub product_id : String → Option String → String
product_id provider_name code = append provider_name (append "_" (location_of code))

abbrev pub product_of : String → ProviderPackageData → ProviderProduct
product_of provider_name d = record {
  id = product_id provider_name d.location_code;
  provider_name = provider_name;
  name = append "eSIM - " (location_of d.location_code);
  description = none;
  location_code = d.location_code;
  is_active = true;
}

abbrev pub package_of : String → ProviderPackageData → ProviderPackage
package_of provider_name d = record {
  id = append provider_name (append "_" d.package_code);
  product_id = product_id provider_name d.location_code;
  provider_name = provider_name;
  package_code = d.package_code;
  name = d.name;
  type = d.type;
  data_volume_mb = d.data_volume_mb;
  duration_days = d.duration_days;
  price = d.price;
  currency = d.currency;
  countries = d.countries;
  is_active = true;
  raw_provider_data = d.raw;
}

-- `active_codes`
abbrev pub codes_of : List ProviderPackageData → List String
codes_of [] = []
codes_of (d ∷ ds) = d.package_code ∷ codes_of ds

module _ (provider : BaseEsimProvider) where
  -- The loop over the provider's packages. It returns the keys of `products_by_location`.
  unfoldable pub sync_packages : List ProviderPackageData → List String → M (List String)
  sync_packages [] locations = pure locations
  sync_packages (d ∷ ds) locations =
      let loc = location_of d.location_code in
      let known = contains loc locations in
      let rest = sync_packages ds (if known then locations else loc ∷ locations) in
      do
        (if known then pure tt else Products.upsert_product (product_of provider.provider_name d))
        Products.upsert_package (package_of provider.provider_name d)
        rest

  -- What follows the loop.
  unfoldable pub concluded : List ProviderPackageData → List String → M CatalogSyncResponse
  concluded packages_data locations = do
    Products.deactivate_missing_packages (codes_of packages_data) provider.provider_name
    pure (record {
      products_synced = length locations;
      packages_synced = length packages_data;
      provider = provider.provider_name;
    })

  -- `sync_catalog`
  unfoldable pub sync_catalog : M CatalogSyncResponse
  unfolding sync_packages concluded
  sync_catalog = do
    packages_data ← call provider.sync_products
    locations ← sync_packages packages_data []
    concluded packages_data locations

-- A product as it is loaded, with its packages.
unfoldable pub loaded : ProviderProduct → M (ProviderProduct × List ProviderPackage)
loaded product = do packages ← Products.packages_of product; pure (product, packages)

unfoldable pub load_next :
    ProviderProduct
    → M (List (ProviderProduct × List ProviderPackage))
    → M (List (ProviderProduct × List ProviderPackage))
unfolding loaded
load_next product rest = do first ← loaded product; others ← rest; pure (first ∷ others)

unfoldable pub load_all : List ProviderProduct → M (List (ProviderProduct × List ProviderPackage))
unfolding load_next
load_all [] = pure []
load_all (p ∷ ps) = load_next p (load_all ps)

-- `get_products`
unfoldable pub get_products :
    (String → String → Bool) → Bool → M (List (ProviderProduct × List ProviderPackage))
unfolding load_all
get_products name_leb active_only = do
  products ← Products.get_all_products name_leb active_only
  load_all products

unfoldable pub load_found :
    Option ProviderProduct → M (Option (ProviderProduct × List ProviderPackage))
unfolding loaded
load_found none = pure none
load_found (some product) = do found ← loaded product; pure (some found)

-- `get_product`
unfoldable pub get_product : String → M (Option (ProviderProduct × List ProviderPackage))
unfolding load_found
get_product id = do found ← Products.get_product_by_id id; load_found found
