-- ===== src/Services/Catalog/Listed.antt =====
-- The listed packages across `sync_catalog` of catalog.py.
use seemsim_esim_gateway.Prelude.{
  ◌+◌, String, Bool, true, false, some, List, [], ◌∷◌, contains, All, if◌then◌else◌, ◌≡◌, refl,
  arith, eq_iff, eq_refl, Option-cases, inl, inr, ap, ◌∙◌, sym,
}
use mathlib.Core.Option
use mathlib.Core.Path.{subst}
use seemsim_esim_gateway.Models.Product.{ProviderProduct, ProviderPackage}
use seemsim_esim_gateway.Exec.{Result, ok, returns, pure, bind_ok, ◌>>=◌, ◌>>◌}
use seemsim_esim_gateway.Exec.Keeps.{Keeps}
use seemsim_esim_gateway.Db.{World, call}
use seemsim_esim_gateway.Db.Table.{find_row, find-update_row, find-append, find-append_new}
use seemsim_esim_gateway.Db.Repositories.Products
use seemsim_esim_gateway.Db.Repositories.Products.{package_key, refresh_package}
use seemsim_esim_gateway.Providers.Base.{BaseEsimProvider, ProviderPackageData}
use seemsim_esim_gateway.Services.Catalog.{
  location_of, package_of, product_of, codes_of, sync_packages, concluded, sync_catalog,
}

-- The package that is found by this code is active.
abbrev pub Active : String → World → Type 0
Active code w = Option.map (λ p. p.is_active) (find_row package_key code w.packages) ≡ some true

package-upsert :
    (code : String) (pkg : ProviderPackage)
    → pkg.is_active ≡ true
    → Keeps (Active code) (Products.upsert_package pkg)
unfolding Products.upsert_package Products.get_package_by_code
package-upsert code pkg on = record {
  at = λ w h. elim (Option-cases (find_row package_key code w.packages)) [
    | inl e ↦ absurd (ground (arith, h, e))
    | inr (p, e) ↦ ground (
      arith,
      on,
      h,
      e,
      find-append package_key code w.packages pkg {x = p} e,
      find-update_row package_key pkg.package_code (refresh_package pkg) (λ _ q. q) code w.packages,
      eq_iff pkg.package_code code,
    )
  ];
}

upsert-Active :
    (pkg : ProviderPackage) (w : World)
    → pkg.is_active ≡ true
    → Active pkg.package_code (Products.upsert_package pkg w).1
unfolding Products.upsert_package Products.get_package_by_code
upsert-Active pkg w on = ground (
  arith,
  on,
  find-append_new package_key w.packages pkg,
  find-update_row package_key pkg.package_code (refresh_package pkg) (λ _ q. q) pkg.package_code
      w.packages,
  eq_refl pkg.package_code,
)

product-upsert :
    (code : String) (p : ProviderProduct) → Keeps (Active code) (Products.upsert_product p)
unfolding Products.upsert_product Products.get_product_by_id
product-upsert code p = record { at = λ w h. ground (arith, h) }

product-returns : (p : ProviderProduct) (w : World) → (Products.upsert_product p w).0 ≡ ok tt
unfolding Products.upsert_product Products.get_product_by_id
product-returns p w = ground arith

package-returns : (p : ProviderPackage) (w : World) → (Products.upsert_package p w).0 ≡ ok tt
unfolding Products.upsert_package Products.get_package_by_code
package-returns p w = ground arith

-- A code of the list is not deactivated.
is_active-deactivate :
    (codes : List String) (provider_name code : String) (rows : List ProviderPackage)
    → contains code codes ≡ true
    → Option.map
        (λ p. p.is_active)
        (find_row package_key code (Products.deactivate_rows codes provider_name rows))
      ≡ Option.map (λ p. p.is_active) (find_row package_key code rows)
unfolding Products.deactivate_rows find_row
is_active-deactivate codes provider_name code [] h = refl
is_active-deactivate codes provider_name code (p ∷ ps) h =
    ground
      (arith, h, is_active-deactivate codes provider_name code ps h, eq_iff p.package_code code)

state_of : {A : Type 0} (p : Result A × World) {a : A} → p.0 ≡ ok a → p ≡ (ok a, p.1)
state_of p e = ap (λ r. (r, p.1)) e

-- The upsert of the product, which is made where the location is new.
product_step :
    (known : Bool) (p : ProviderProduct) (w : World)
    → (if known then pure tt else Products.upsert_product p) w
      ≡ (ok tt, if known then w else (Products.upsert_product p w).1)
product_step true p w = refl
product_step false p w = state_of (Products.upsert_product p w) (product-returns p w)

product_keeps :
    (code : String) (known : Bool) (p : ProviderProduct) (w : World)
    → Active code w
    → Active code (if known then w else (Products.upsert_product p w).1)
product_keeps code true p w h = h
product_keeps code false p w h = (product-upsert code p).at w h

module _ (provider : BaseEsimProvider) where
  -- The state after the product and the package of one entry.
  abbrev after_one : ProviderPackageData → List String → World → World
  after_one d locations w =
      let w₁ =
        if contains (location_of d.location_code) locations
        then w
        else (Products.upsert_product (product_of provider.provider_name d) w).1 in
      (Products.upsert_package (package_of provider.provider_name d) w₁).1

  abbrev locations_after : ProviderPackageData → List String → List String
  locations_after d locations =
      if contains (location_of d.location_code) locations
      then locations
      else location_of d.location_code ∷ locations

  one-more :
      (d : ProviderPackageData) (ds : List ProviderPackageData) (locations : List String)
      (w : World)
      → sync_packages provider (d ∷ ds) locations w
        ≡ sync_packages provider ds (locations_after d locations) (after_one d locations w)
  unfolding sync_packages
  one-more d ds locations w =
      let known = contains (location_of d.location_code) locations in
      let product = product_of provider.provider_name d in
      let pkg = package_of provider.provider_name d in
      let w₁ = if known then w else (Products.upsert_product product w).1 in
      let rest = sync_packages provider ds (locations_after d locations) in
      bind_ok (if known then pure tt else Products.upsert_product product)
        (λ _. Products.upsert_package pkg >> rest) (product_step known product w)
      ∙ bind_ok (Products.upsert_package pkg) (λ _. rest)
          (state_of (Products.upsert_package pkg w₁) (package-returns pkg w₁))

  one-keeps :
      (code : String) (d : ProviderPackageData) (locations : List String) (w : World)
      → Active code w
      → Active code (after_one d locations w)
  one-keeps code d locations w h =
      (package-upsert code (package_of provider.provider_name d) refl).at _ (
        product_keeps code (contains (location_of d.location_code) locations)
          (product_of provider.provider_name d) w h)

  packages-keep :
      (code : String) (ds : List ProviderPackageData) (locations : List String) (w : World)
      → Active code w
      → Active code (sync_packages provider ds locations w).1
  packages-keep code [] locations w h = unfold sync_packages in h
  packages-keep code (d ∷ ds) locations w h = rw (one-more d ds locations w) (
      packages-keep code ds (locations_after d locations) (after_one d locations w)
        (one-keeps code d locations w h))

  packages-Active :
      (ds : List ProviderPackageData) (locations : List String) (w : World)
      → All (λ d. Active d.package_code (sync_packages provider ds locations w).1) ds
  packages-Active [] locations w = tt
  packages-Active (d ∷ ds) locations w =
      let w₁ =
        if contains (location_of d.location_code) locations
        then w
        else (Products.upsert_product (product_of provider.provider_name d) w).1 in
      subst (λ r. All (λ d. Active d.package_code r.1) (d ∷ ds)) (sym (one-more d ds locations w))
        (
          packages-keep d.package_code ds (locations_after d locations) (after_one d locations w)
              (upsert-Active (package_of provider.provider_name d) w₁ refl),
          packages-Active ds (locations_after d locations) (after_one d locations w),
        )

  packages-return :
      (ds : List ProviderPackageData) (locations : List String) (w : World)
      → (found : List String) × ((sync_packages provider ds locations w).0 ≡ ok found)
  packages-return [] locations w = (locations, unfold sync_packages in refl)
  packages-return (d ∷ ds) locations w =
      let (found, e) = packages-return ds (locations_after d locations) (after_one d locations w) in
      (found, ap (λ r. r.0) (one-more d ds locations w) ∙ e)

-- Each entry's code is among the codes of a list of codes.
abbrev Covered : List String → List ProviderPackageData → Type 0
Covered codes ds = All (λ d. contains d.package_code codes ≡ true) ds

tail-Covered :
    (code : String) (codes : List String) (ds : List ProviderPackageData)
    → Covered codes ds
    → Covered (code ∷ codes) ds
tail-Covered code codes [] h = tt
tail-Covered code codes (d ∷ ds) (e, h) = (ground (arith, e), tail-Covered code codes ds h)

codes-Covered : (ds : List ProviderPackageData) → Covered (codes_of ds) ds
codes-Covered [] = tt
codes-Covered (d ∷ ds) = (
  ground (arith, eq_refl d.package_code),
  tail-Covered d.package_code (codes_of ds) ds (codes-Covered ds),
)

module _ (provider : BaseEsimProvider) (listed : List ProviderPackageData) where
  concluded-Active :
      (locations : List String) (w : World) (ds : List ProviderPackageData)
      → Covered (codes_of listed) ds
      → All (λ d. Active d.package_code w) ds
      → All (λ d. Active d.package_code (concluded provider listed locations w).1) ds
  unfolding concluded Products.deactivate_missing_packages
  concluded-Active locations w [] c h = tt
  concluded-Active locations w (d ∷ ds) (c, cs) (h, hs) = (
    is_active-deactivate (codes_of listed) provider.provider_name d.package_code w.packages c ∙ h,
    concluded-Active locations w ds cs hs,
  )

  -- If the provider's listing succeeds, the catalog sync returns, and each listed package is then
  -- stored and active: the row that is found by its code.
  pub sync_catalog-Listed :
      (w : World)
      → provider.sync_products w.exchanges ≡ ok listed
      → let (r, w') = sync_catalog provider w in
        (returns r ≡ true) × All (λ d. Active d.package_code w') listed
  unfolding sync_catalog
  sync_catalog-Listed w h =
      let w' = record w { exchanges = w.exchanges + 1 } in
      let (locations, e) = packages-return provider listed [] w' in
      let w'' = (sync_packages provider listed [] w').1 in
      let whole =
        bind_ok (call provider.sync_products)
          (λ ds. sync_packages provider ds [] >>= concluded provider ds) (ap (λ r. (r, w')) h)
        ∙ bind_ok (sync_packages provider listed []) (concluded provider listed)
            (state_of (sync_packages provider listed [] w') e) in
      subst (λ p. (returns p.0 ≡ true) × All (λ d. Active d.package_code p.1) listed) (sym whole)
        (
          unfold concluded Products.deactivate_missing_packages in refl,
          concluded-Active locations w'' listed (codes-Covered listed)
              (packages-Active provider listed [] w'),
        )
