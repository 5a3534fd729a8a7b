-- ===== src/Tests/CatalogRuns.antt =====
-- Runs of the listing of the catalog.
use mathlib.Core.List.{Memᴰ}
use seemsim_esim_gateway.Prelude.{true, false, List, [], ◌∷◌, ◌≡◌, ◌↔◌}
use seemsim_esim_gateway.Exec.{ok}
use seemsim_esim_gateway.Db.{World}
use seemsim_esim_gateway.Schemas.{api_response}
use seemsim_esim_gateway.Schemas.Product.{PackageOut}
use seemsim_esim_gateway.Services.Catalog.{product_of, package_of}
use seemsim_esim_gateway.Api.Catalog.{list_all_packages}
use seemsim_esim_gateway.Api.Catalog.Packages.{Listed, list_all_packages-Listed}
use seemsim_esim_gateway.Tests.Sample.{sample_package, no_tables, world_of}

-- One product with an active package and one that is not.
abbrev stocked : World
stocked = world_of (record no_tables {
  products = product_of "esim_access" sample_package ∷ [];
  packages =
      package_of "esim_access" sample_package
      ∷ record (package_of "esim_access" sample_package) { package_code = "P2"; is_active = false }
      ∷ [];
})

list_all_packages-Listed_example :
    (items : List PackageOut) × (list_all_packages (λ s t. true) stocked
      ≡ (ok (api_response items), stocked))
    × ((item : PackageOut) → Memᴰ item items ↔ Listed stocked item)
list_all_packages-Listed_example = list_all_packages-Listed (λ s t. true) stocked
