-- ===== src/Api/Catalog/Packages.antt =====
-- What `list_all_packages` of app/api/v1/catalog.py lists.
use mathlib.Core.List.{Memᴰ}
use mathlib.Core.List.Memᴰ
use mathlib.Core.Logic.{◌↔◌, ⊎_elim}
use mathlib.Core.Path.{subst}
use seemsim_esim_gateway.Prelude.{
  String, Bool, true, List, [], ◌∷◌, map, select_where, ◌≡◌, refl, sym, ◌==◌,
}
use seemsim_esim_gateway.Prelude.Membership.{Memᴰ-select_where}
use seemsim_esim_gateway.Models.Product.{ProviderProduct, ProviderPackage}
use seemsim_esim_gateway.Exec.{ok, pure, bind_ok}
use seemsim_esim_gateway.Db.{World}
use seemsim_esim_gateway.Db.Repositories.Products.{get_all_products, packages_of, order_by_name}
use seemsim_esim_gateway.Db.Repositories.Products.ByName.{Memᴰ-order_by_name}
use seemsim_esim_gateway.Services.Catalog.{loaded, load_next, load_all, get_products}
use seemsim_esim_gateway.Schemas.{api_response}
use seemsim_esim_gateway.Schemas.Product.{PackageOut, package_out}
use seemsim_esim_gateway.Api.Catalog.{active_packages, list_all_packages}

-- The item shows an active package of an active product.
pub record Listed (w : World) (item : PackageOut) : Type 0 where
  pub product : ProviderProduct
  pub row : ProviderPackage
  pub product_stored : Memᴰ product w.products
  pub product_active : product.is_active ≡ true
  pub row_stored : Memᴰ row w.packages
  pub row_of_product : (row.product_id == product.id) ≡ true
  pub row_active : row.is_active ≡ true
  pub shown : item ≡ package_out row

-- The products with their packages, as they are loaded.
abbrev with_packages : World → List ProviderProduct → List (ProviderProduct × List ProviderPackage)
with_packages w [] = []
with_packages w (p ∷ ps) =
    (p, select_where (λ k. k.product_id == p.id) w.packages) ∷ with_packages w ps

load_all-returns :
    (w : World) (ps : List ProviderProduct) → load_all ps w ≡ (ok (with_packages w ps), w)
unfolding load_all load_next loaded packages_of
load_all-returns w [] = refl
load_all-returns w (p ∷ ps) =
    bind_ok (load_all ps)
      (λ others. pure ((p, select_where (λ k. k.product_id == p.id) w.packages) ∷ others))
      (load_all-returns w ps)

-- The item shows an active package of one of the products.
record Shown (w : World) (item : PackageOut) (ps : List ProviderProduct) : Type 0 where
  product : ProviderProduct
  row : ProviderPackage
  product_given : Memᴰ product ps
  row_stored : Memᴰ row w.packages
  row_of_product : (row.product_id == product.id) ≡ true
  row_active : row.is_active ≡ true
  shown : item ≡ package_out row

module _ (w : World) (item : PackageOut) where
  -- The items of one product.
  abbrev items_of : ProviderProduct → List PackageOut
  items_of p =
      map package_out
        (select_where (λ k. k.is_active) (select_where (λ k. k.product_id == p.id) w.packages))

  items_of-Shown :
      (p : ProviderProduct) (ps : List ProviderProduct)
      → Memᴰ item (items_of p)
      → Shown w item (p ∷ ps)
  items_of-Shown p ps m =
      let (row, chosen, shown) = Memᴰ.of_map package_out _ m in
      let (of_product, active) = (Memᴰ-select_where (λ k. k.is_active) row _).0 chosen in
      let (stored, same) =
        (Memᴰ-select_where (λ k. k.product_id == p.id) row w.packages).0 of_product in
      record {
        product = p;
        row = row;
        product_given = Memᴰ.head refl;
        row_stored = stored;
        row_of_product = same;
        row_active = active;
        shown = sym shown;
      }

  later-Shown :
      (p : ProviderProduct) (ps : List ProviderProduct) → Shown w item ps → Shown w item (p ∷ ps)
  later-Shown p ps h = record {
    product = h.product;
    row = h.row;
    product_given = Memᴰ.tail h.product_given;
    row_stored = h.row_stored;
    row_of_product = h.row_of_product;
    row_active = h.row_active;
    shown = h.shown;
  }

  Shown-items_of :
      (p : ProviderProduct) (ps : List ProviderProduct) (h : Shown w item ps)
      → h.product ≡ p
      → Memᴰ item (items_of p)
  Shown-items_of p ps h same = Memᴰ.cast h.shown (
      Memᴰ.map package_out (
        (Memᴰ-select_where (λ k. k.is_active) h.row _).1 (
          (Memᴰ-select_where (λ k. k.product_id == p.id) h.row w.packages).1
              (h.row_stored, subst (λ q. (h.row.product_id == q.id) ≡ true) same h.row_of_product),
          h.row_active,
        )))

  Memᴰ-active_packages :
      (ps : List ProviderProduct)
      → Memᴰ item (active_packages (with_packages w ps)) ↔ Shown w item ps
  unfolding active_packages
  Memᴰ-active_packages [] =
      (λ m. absurd (Memᴰ.not-nil m), λ h. absurd (Memᴰ.not-nil h.product_given))
  Memᴰ-active_packages (p ∷ ps) =
      let (to, from) = Memᴰ-active_packages ps in
      (
        λ m.
            ⊎_elim (items_of-Shown p ps) (λ later. later-Shown p ps (to later))
              (Memᴰ.append_cases (items_of p) m),
        λ h.
            ⊎_elim (λ same. Memᴰ.append_left _ (Shown-items_of p (p ∷ ps) h same))
              (λ later. Memᴰ.append_right (items_of p) (
                from (record {
                  product = h.product;
                  row = h.row;
                  product_given = later;
                  row_stored = h.row_stored;
                  row_of_product = h.row_of_product;
                  row_active = h.row_active;
                  shown = h.shown;
                })))
              (Memᴰ.cases_cons h.product_given),
      )

module _ (name_leb : String → String → Bool) (w : World) where
  -- The active products in the order of their names.
  abbrev chosen : List ProviderProduct
  chosen = order_by_name name_leb (select_where (λ p. p.is_active) w.products)

  Shown-Listed : (item : PackageOut) → Shown w item chosen ↔ Listed w item
  Shown-Listed item = (
    λ h.
        let (stored, active) =
          (Memᴰ-select_where (λ p. p.is_active) h.product w.products).0
            ((Memᴰ-order_by_name name_leb h.product _).0 h.product_given) in
        record {
          product = h.product;
          row = h.row;
          product_stored = stored;
          product_active = active;
          row_stored = h.row_stored;
          row_of_product = h.row_of_product;
          row_active = h.row_active;
          shown = h.shown;
        },
    λ h. record {
      product = h.product;
      row = h.row;
      product_given = (Memᴰ-order_by_name name_leb h.product _).1 (
          (Memᴰ-select_where (λ p. p.is_active) h.product w.products).1
            (h.product_stored, h.product_active));
      row_stored = h.row_stored;
      row_of_product = h.row_of_product;
      row_active = h.row_active;
      shown = h.shown;
    },
  )

  -- The listing of all packages returns and changes nothing, and an item is in it exactly if it shows
  -- an active package of an active product.
  pub list_all_packages-Listed :
      (items : List PackageOut) × (list_all_packages name_leb w ≡ (ok (api_response items), w))
      × ((item : PackageOut) → Memᴰ item items ↔ Listed w item)
  unfolding list_all_packages get_products get_all_products
  list_all_packages-Listed = (
    active_packages (with_packages w chosen),
    bind_ok (load_all chosen) (λ products. pure (api_response (active_packages products)))
        (load_all-returns w chosen),
    λ item.
        let (to, from) = Memᴰ-active_packages w item chosen in
        let (widen, narrow) = Shown-Listed item in (λ m. widen (to m), λ h. from (narrow h)),
  )
