-- ===== src/Db/Repositories/Products.antt =====
-- app/repositories/product.py.
pub mod ByName
use seemsim_esim_gateway.Prelude.{
  ℕ, String, Bool, false, not, ◌&&◌, Option, none, some, List, [], ◌∷◌, ◌++◌, select_where,
  contains, length, if◌then◌else◌, ◌==◌,
}
use seemsim_esim_gateway.Models.Product.{ProviderProduct, ProviderPackage}
use seemsim_esim_gateway.Exec.{gets, ◌>>=◌, ◌>>◌, pure}
use seemsim_esim_gateway.Db.{M, modify_tables}
use seemsim_esim_gateway.Db.Table.{find_row, update_row}

abbrev pub product_key : ProviderProduct → String
product_key p = p.id

-- `package_code` is unique.
abbrev pub package_key : ProviderPackage → String
package_key p = p.package_code

abbrev pub set_products : (List ProviderProduct → List ProviderProduct) → M (Unit {0})
set_products f = modify_tables (λ t. record t { products = f t.products })

abbrev pub set_packages : (List ProviderPackage → List ProviderPackage) → M (Unit {0})
set_packages f = modify_tables (λ t. record t { packages = f t.packages })

-- `order_by(name)`, for the database's order of texts: insertion before the first later name.
insert_by_name :
    (String → String → Bool) → ProviderProduct → List ProviderProduct → List ProviderProduct
insert_by_name name_leb p [] = p ∷ []
insert_by_name name_leb p (x ∷ xs) =
    let rest = insert_by_name name_leb p xs in
    if name_leb p.name x.name then p ∷ x ∷ xs else x ∷ rest

unfoldable pub order_by_name :
    (String → String → Bool) → List ProviderProduct → List ProviderProduct
unfolding insert_by_name
order_by_name name_leb [] = []
order_by_name name_leb (p ∷ ps) = insert_by_name name_leb p (order_by_name name_leb ps)

-- `ProductRepository.get_all_products`
unfoldable pub get_all_products : (String → String → Bool) → Bool → M (List ProviderProduct)
unfolding order_by_name
get_all_products name_leb active_only = do
  rows ← gets (λ w. w.products)
  pure (order_by_name name_leb (if active_only then select_where (λ p. p.is_active) rows else rows))

-- The relationship `packages` of a product.
unfoldable pub packages_of : ProviderProduct → M (List ProviderPackage)
packages_of product = gets (λ w. select_where (λ p. p.product_id == product.id) w.packages)

-- `ProductRepository.get_product_by_id`
unfoldable pub get_product_by_id : String → M (Option ProviderProduct)
get_product_by_id product_id = gets (λ w. find_row product_key product_id w.products)

-- The assignments of `upsert_product` to an existing row.
abbrev pub refresh_product : ProviderProduct → ProviderProduct → ProviderProduct
refresh_product product existing = record existing {
  name = product.name;
  description = product.description;
  location_code = product.location_code;
  is_active = product.is_active;
}

-- `ProductRepository.upsert_product`
unfoldable pub upsert_product : ProviderProduct → M (Unit {0})
unfolding get_product_by_id
upsert_product product = do
  found ← get_product_by_id product.id
  elim found [
    | none ↦ set_products (λ rows. rows ++ product ∷ [])
    | some existing ↦ set_products (update_row product_key product.id (refresh_product product))
  ]

-- `ProductRepository.get_package_by_code`
unfoldable pub get_package_by_code : String → M (Option ProviderPackage)
get_package_by_code package_code = gets (λ w. find_row package_key package_code w.packages)

-- The assignments of `upsert_package` to an existing row.
abbrev pub refresh_package : ProviderPackage → ProviderPackage → ProviderPackage
refresh_package pkg existing = record existing {
  name = pkg.name;
  type = pkg.type;
  data_volume_mb = pkg.data_volume_mb;
  duration_days = pkg.duration_days;
  price = pkg.price;
  currency = pkg.currency;
  countries = pkg.countries;
  is_active = pkg.is_active;
  raw_provider_data = pkg.raw_provider_data;
}

-- `ProductRepository.upsert_package`
unfoldable pub upsert_package : ProviderPackage → M (Unit {0})
unfolding get_package_by_code
upsert_package pkg = do
  found ← get_package_by_code pkg.package_code
  elim found [
    | none ↦ set_packages (λ rows. rows ++ pkg ∷ [])
    | some existing ↦ set_packages (update_row package_key pkg.package_code (refresh_package pkg))
  ]

-- The `where` clauses of `deactivate_missing_packages`.
abbrev pub is_missing : List String → String → ProviderPackage → Bool
is_missing active_codes provider_name p =
    p.provider_name == provider_name && p.is_active && not (contains p.package_code active_codes)

unfoldable pub deactivate_rows : List String → String → List ProviderPackage → List ProviderPackage
deactivate_rows active_codes provider_name [] = []
deactivate_rows active_codes provider_name (p ∷ ps) =
    (if is_missing active_codes provider_name p then record p { is_active = false } else p)
    ∷ deactivate_rows active_codes provider_name ps

-- `ProductRepository.deactivate_missing_packages`
unfoldable pub deactivate_missing_packages : List String → String → M ℕ
unfolding deactivate_rows
deactivate_missing_packages active_codes provider_name = do
  rows ← gets (λ w. w.packages)
  set_packages (deactivate_rows active_codes provider_name)
  pure (length (select_where (is_missing active_codes provider_name) rows))
