-- ===== src/Services/Catalog/Active.antt =====
-- Which packages are active after a catalog sync.
use seemsim_esim_gateway.Prelude.{
  ◌+◌, String, true, false, List, [], ◌∷◌, contains, All, if◌then◌else◌, ◌==◌, ◌≡◌, arith,
  Bool-cases, inl, inr,
}
use seemsim_esim_gateway.Models.Product.{ProviderPackage}
use seemsim_esim_gateway.Exec.{Result, ok, err, ◌>>=◌}
use seemsim_esim_gateway.Db.{World}
use seemsim_esim_gateway.Db.Repositories.Products.{
  deactivate_rows, deactivate_missing_packages, is_missing,
}
use seemsim_esim_gateway.Providers.Base.{BaseEsimProvider, ProviderPackageData}
use seemsim_esim_gateway.Services.Catalog.{
  CatalogSyncResponse, codes_of, concluded, sync_packages, sync_catalog,
}

-- An active package of the provider has one of the codes.
abbrev pub Offered : List String → String → ProviderPackage → Type 0
Offered codes provider_name p =
    (p.provider_name == provider_name) ≡ true
    → p.is_active ≡ true
    → contains p.package_code codes ≡ true

deactivated-Offered :
    (codes : List String) (provider_name : String) (p : ProviderPackage)
    → Offered codes provider_name
        (if is_missing codes provider_name p then record p { is_active = false } else p)
deactivated-Offered codes provider_name p = elim (Bool-cases (is_missing codes provider_name p)) [
  | inl e ↦ rw e (λ same active. absurd (ground (arith, active)))
  | inr e ↦ rw e (λ same active. ground (arith, e, same, active))
]

deactivate_rows-Offered :
    (codes : List String) (provider_name : String) (rows : List ProviderPackage)
    → All (Offered codes provider_name) (deactivate_rows codes provider_name rows)
unfolding deactivate_rows
deactivate_rows-Offered codes provider_name [] = tt
deactivate_rows-Offered codes provider_name (p ∷ ps) =
    (deactivated-Offered codes provider_name p, deactivate_rows-Offered codes provider_name ps)

module _ (provider : BaseEsimProvider) where
  after_packages :
      (listed : List ProviderPackageData) (locations : Result (List String)) (w : World)
      (answer : CatalogSyncResponse)
      → (((λ _. (locations, w)) >>= λ l. concluded provider listed l) w).0 ≡ ok answer
      → All
          (Offered (codes_of listed) provider.provider_name)
          (((λ _. (locations, w)) >>= λ l. concluded provider listed l) w).1.packages
  unfolding concluded deactivate_missing_packages
  after_packages listed (ok locations) w answer done =
      deactivate_rows-Offered (codes_of listed) provider.provider_name w.packages
  after_packages listed (err e) w answer done = absurd (cc)

  -- After a catalog sync that returns, every active package of the provider has one of the codes that
  -- the provider listed in this sync.
  pub sync_catalog-Offered :
      (w : World) (listed : List ProviderPackageData) (answer : CatalogSyncResponse)
      → provider.sync_products w.exchanges ≡ ok listed
      → (sync_catalog provider w).0 ≡ ok answer
      → All (Offered (codes_of listed) provider.provider_name) (sync_catalog provider w).1.packages
  unfolding sync_catalog
  sync_catalog-Offered w listed answer h =
      let w' = record w { exchanges = w.exchanges + 1 } in
      let (locations, w'') = sync_packages provider listed [] w' in
      rw (h, sync_catalog) (after_packages listed locations w'' answer)
