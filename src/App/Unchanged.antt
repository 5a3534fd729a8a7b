-- ===== src/App/Unchanged.antt =====
-- The endpoints of app/api/v1 that leave the tables alone.
use seemsim_esim_gateway.Prelude.{ℕ, String, Bool, true, Option, none, some, List, [], ◌∷◌, ◌≡◌}
use seemsim_esim_gateway.Prelude.Int.{ℤ}
use seemsim_esim_gateway.Python.Runtime.{Runtime}
use seemsim_esim_gateway.Exec.{Result}
use seemsim_esim_gateway.Exec.Keeps.{Keeps, Keeps-pure, Keeps-raise, keeps_rules}
use seemsim_esim_gateway.Models.{ProviderOrder}
use seemsim_esim_gateway.Models.Esim.{Esim}
use seemsim_esim_gateway.Models.Product.{ProviderProduct, ProviderPackage}
use seemsim_esim_gateway.Db.{Tables, World, M, utc_now, call}
use seemsim_esim_gateway.Db.Repositories.Orders
use seemsim_esim_gateway.Db.Repositories.Esims
use seemsim_esim_gateway.Db.Repositories.Products
use seemsim_esim_gateway.Services.Catalog
use seemsim_esim_gateway.Services.Esims as EsimService
use seemsim_esim_gateway.Services.Orders as OrderService
use seemsim_esim_gateway.Providers.Base.{BaseEsimProvider}
use seemsim_esim_gateway.Api.Catalog as CatalogApi
use seemsim_esim_gateway.Api.Esims as EsimApi
use seemsim_esim_gateway.Api.OrderReads
use seemsim_esim_gateway.Api.Admin

module _ (t : Tables) where
  abbrev pub Same : World → Type 0
  Same w = w.tables ≡ t

  pub utc_now-Same : (rt : Runtime) → Keeps Same (utc_now rt)
  utc_now-Same rt = record { at = λ w h. h }

  call-Same : {A : Type 0} (operation : ℕ → Result A) → Keeps Same (call operation)
  call-Same operation = record { at = λ w h. h }

  packages_of-Same : (p : ProviderProduct) → Keeps Same (Products.packages_of p)
  unfolding Products.packages_of
  packages_of-Same p = record { at = λ w h. h }

  loaded-Same : (p : ProviderProduct) → Keeps Same (Catalog.loaded p)
  unfolding Catalog.loaded
  loaded-Same p = search (keeps_rules, packages_of-Same)

  load_next-Same :
      (p : ProviderProduct) (rest : M (List (ProviderProduct × List ProviderPackage)))
      → Keeps Same rest
      → Keeps Same (Catalog.load_next p rest)
  unfolding Catalog.load_next
  load_next-Same p rest k = search (keeps_rules, loaded-Same)

  load_all-Same : (ps : List ProviderProduct) → Keeps Same (Catalog.load_all ps)
  unfolding Catalog.load_all
  load_all-Same [] = Keeps-pure []
  load_all-Same (p ∷ ps) = load_next-Same p _ (load_all-Same ps)

  get_all_products-Same :
      (name_leb : String → String → Bool) (active_only : Bool)
      → Keeps Same (Products.get_all_products name_leb active_only)
  unfolding Products.get_all_products
  get_all_products-Same name_leb active_only = record { at = λ w h. h }

  get_products-Same :
      (name_leb : String → String → Bool) → Keeps Same (Catalog.get_products name_leb true)
  unfolding Catalog.get_products
  get_products-Same name_leb = search (keeps_rules, get_all_products-Same, load_all-Same)

  pub list_products-Same :
      (name_leb : String → String → Bool) → Keeps Same (CatalogApi.list_products name_leb)
  unfolding CatalogApi.list_products
  list_products-Same name_leb = search (keeps_rules, get_products-Same)

  pub list_all_packages-Same :
      (name_leb : String → String → Bool) → Keeps Same (CatalogApi.list_all_packages name_leb)
  unfolding CatalogApi.list_all_packages
  list_all_packages-Same name_leb = search (keeps_rules, get_products-Same)

  load_found-Same : (found : Option ProviderProduct) → Keeps Same (Catalog.load_found found)
  unfolding Catalog.load_found
  load_found-Same none = Keeps-pure none
  load_found-Same (some p) = search (keeps_rules, loaded-Same)

  get_product_by_id-Same : (id : String) → Keeps Same (Products.get_product_by_id id)
  unfolding Products.get_product_by_id
  get_product_by_id-Same id = record { at = λ w h. h }

  found_product-Same :
      (id : String) (found : Option (ProviderProduct × List ProviderPackage))
      → Keeps Same (CatalogApi.found_product id found)
  unfolding CatalogApi.found_product
  found_product-Same id none = Keeps-raise _
  found_product-Same id (some p) = Keeps-pure _

  pub get_product-Same : (id : String) → Keeps Same (CatalogApi.get_product id)
  unfolding CatalogApi.get_product Catalog.get_product
  get_product-Same id =
      search (keeps_rules, get_product_by_id-Same, load_found-Same, found_product-Same)

  order_by_id-Same : (id : String) → Keeps Same (Orders.get_by_id id)
  unfolding Orders.get_by_id
  order_by_id-Same id = record { at = λ w h. h }

  found_order-Same :
      (rt : Runtime) (provider : BaseEsimProvider) (id : String) (o : Option ProviderOrder)
      → Keeps Same (OrderService.found_order rt provider id o)
  found_order-Same rt provider id none = Keeps-raise _
  found_order-Same rt provider id (some o) = Keeps-pure o

  get_order-Same :
      (rt : Runtime) (provider : BaseEsimProvider) (id : String)
      → Keeps Same (OrderService.get_order rt provider id)
  unfolding OrderService.get_order
  get_order-Same rt provider id =
      search (keeps_rules, order_by_id-Same, found_order-Same rt provider)

  pub order-Same :
      (rt : Runtime) (provider : BaseEsimProvider) (id : String)
      → Keeps Same (OrderReads.get_order rt provider id)
  unfolding OrderReads.get_order
  order-Same rt provider id = search (keeps_rules, get_order-Same)

  get_by_order_id-Same : (id : String) → Keeps Same (Esims.get_by_order_id id)
  unfolding Esims.get_by_order_id
  get_by_order_id-Same id = record { at = λ w h. h }

  pub get_order_esims-Same :
      (rt : Runtime) (provider : BaseEsimProvider) (id : String)
      → Keeps Same (OrderReads.get_order_esims rt provider id)
  unfolding OrderReads.get_order_esims OrderService.get_order_esims
  get_order_esims-Same rt provider id = search (keeps_rules, get_order-Same, get_by_order_id-Same)

  get_by_id-Same : (id : String) → Keeps Same (Esims.get_by_id id)
  unfolding Esims.get_by_id
  get_by_id-Same id = record { at = λ w h. h }

  or_not_found-Same :
      (detail : String) (found : Option Esim) → Keeps Same (EsimService.or_not_found detail found)
  or_not_found-Same detail none = Keeps-raise _
  or_not_found-Same detail (some e) = Keeps-pure e

  get_esim-Same : (id : String) → Keeps Same (EsimService.get_esim id)
  unfolding EsimService.get_esim
  get_esim-Same id = search (keeps_rules, get_by_id-Same, or_not_found-Same)

  pub esim-Same : (id : String) → Keeps Same (EsimApi.get_esim id)
  unfolding EsimApi.get_esim
  esim-Same id = search (keeps_rules, get_esim-Same)

  get_status_history-Same : (id : String) → Keeps Same (Esims.get_status_history id)
  unfolding Esims.get_status_history
  get_status_history-Same id = record { at = λ w h. h }

  pub get_esim_history-Same : (id : String) → Keeps Same (EsimApi.get_esim_history id)
  unfolding EsimApi.get_esim_history EsimService.get_status_history
  get_esim_history-Same id = search (keeps_rules, get_esim-Same, get_status_history-Same)

  latest_events-Same : (n : Option ℕ) → Keeps Same (Admin.latest_events n)
  unfolding Admin.latest_events
  latest_events-Same none = Keeps-raise _
  latest_events-Same (some n) = record { at = λ w h. h }

  pub list_webhook_events-Same : (limit : ℤ) → Keeps Same (Admin.list_webhook_events limit)
  unfolding Admin.list_webhook_events
  list_webhook_events-Same limit = search (keeps_rules, latest_events-Same)

  pub get_balance-Same : (provider : BaseEsimProvider) → Keeps Same (Admin.get_balance provider)
  unfolding Admin.get_balance
  get_balance-Same provider = search (keeps_rules, call-Same)
