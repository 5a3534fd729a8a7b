-- ===== src/Api/Catalog.antt =====
-- app/api/v1/catalog.py.
pub mod Packages
use Prim.Native.String.{◌++◌ as append}
use seemsim_esim_gateway.Prelude.{
  String, Bool, true, Option, none, some, List, [], ◌∷◌, ◌++◌, map, select_where,
}
use seemsim_esim_gateway.Errors.{new_error, resource_not_found_error}
use seemsim_esim_gateway.Models.Product.{ProviderProduct, ProviderPackage}
use seemsim_esim_gateway.Exec.{pure, raise, ◌>>=◌}
use seemsim_esim_gateway.Db.{M}
use seemsim_esim_gateway.Providers.Base.{BaseEsimProvider}
use seemsim_esim_gateway.Services.Catalog
use seemsim_esim_gateway.Services.Catalog.{CatalogSyncResponse}
use seemsim_esim_gateway.Schemas.{ApiResponse, api_response}
use seemsim_esim_gateway.Schemas.Product.{
  PackageOut, package_out, ProductOut, product_out, ProductListOut, product_list_out,
}

-- `sync_catalog`
unfoldable pub sync_catalog : BaseEsimProvider → M (ApiResponse CatalogSyncResponse)
sync_catalog provider = do result ← Catalog.sync_catalog provider; pure (api_response result)

-- `list_products`
unfoldable pub list_products : (String → String → Bool) → M (ApiResponse (List ProductListOut))
list_products name_leb = do
  products ← Catalog.get_products name_leb true
  pure (api_response (map product_list_out products))

-- The comprehension of `list_all_packages`.
unfoldable pub active_packages : List (ProviderProduct × List ProviderPackage) → List PackageOut
active_packages [] = []
active_packages ((product, packages) ∷ products) =
    map package_out (select_where (λ pkg. pkg.is_active) packages) ++ active_packages products

-- `list_all_packages`
unfoldable pub list_all_packages : (String → String → Bool) → M (ApiResponse (List PackageOut))
unfolding active_packages
list_all_packages name_leb = do
  products ← Catalog.get_products name_leb true
  pure (api_response (active_packages products))

unfoldable pub found_product :
    String → Option (ProviderProduct × List ProviderPackage) → M (ApiResponse ProductOut)
found_product product_id none =
    raise (new_error resource_not_found_error (append "Product " (append product_id " not found")))
found_product product_id (some product) = pure (api_response (product_out product))

-- `get_product`
unfoldable pub get_product : String → M (ApiResponse ProductOut)
unfolding found_product
get_product product_id = do
  product ← Catalog.get_product product_id
  found_product product_id product
