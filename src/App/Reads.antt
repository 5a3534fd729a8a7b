-- ===== src/App/Reads.antt =====
-- What a GET request leaves as it was, over the whole application.
use seemsim_esim_gateway.Prelude.{String, false, Option, ◌≡◌, refl, ap, arith, inl, inr}
use seemsim_esim_gateway.Python.Runtime.{Runtime}
use seemsim_esim_gateway.Exec.{Result, ok, err, Result-cases}
use seemsim_esim_gateway.Exec.Keeps.{Keeps, keeps_rules}
use seemsim_esim_gateway.Db.{Tables, World, M, in_session}
use seemsim_esim_gateway.Redis.{Redis}
use seemsim_esim_gateway.Idempotency.{IdempotencyRecord}
use seemsim_esim_gateway.Providers.Base.{BaseEsimProvider}
use seemsim_esim_gateway.App.Routes.{
  Request, liveness, readiness, sync_catalog, list_products, list_all_packages, get_product,
  create_order, get_order, refresh_order, get_order_esims, topup_order, cancel_order, get_esim,
  get_esim_status, get_esim_history, esim_access_webhook, get_balance, trigger_reconciliation,
  list_webhook_events, get, method_of, asks_status, scope_of,
}
use seemsim_esim_gateway.App.Endpoints.{
  Service, Settings, Body, on_session, handle, health, products, packages, product, order,
  order_esims, esim, esim_history, balance, events,
}
use seemsim_esim_gateway.App.Serve.{serve, admit, authorised}
use seemsim_esim_gateway.App.Unchanged.{
  Same, utc_now-Same, list_products-Same, list_all_packages-Same, get_product-Same, order-Same,
  get_order_esims-Same, esim-Same, get_esim_history-Same, list_webhook_events-Same,
  get_balance-Same,
}

-- What is stored: the tables, the idempotency keys and the locks.
abbrev pub stored : {K L : Type 0} → Service K L → Tables × K × L
stored s = (s.world.tables, s.keys, s.locks)

in_session-tables :
    {A : Type 0} (m : M A) (w : World)
    → Keeps (Same w.tables) m
    → (in_session m w).1.tables ≡ w.tables
unfolding in_session
in_session-tables m w kept = elim (Result-cases (m w).0) [
  | inl (a, e) ↦ rw (e, in_session) (kept.at w refl)
  | inr (exc, e) ↦ rw (e, in_session) refl
]

module _ {K L A : Type 0} (m : M A) (body : A → Body) (s : Service K L) where
  session-stored : Keeps (Same s.world.tables) m → stored (on_session m body s).1 ≡ stored s
  unfolding on_session
  session-stored kept = ap (λ t. (t, s.keys, s.locks)) (in_session-tables m s.world kept)

module _ (keys : Redis IdempotencyRecord) (locks : Redis String) (settings : Settings)
    (rt : Runtime) (provider : BaseEsimProvider) where
  handle-stored :
      (request : Request) (s : Service keys.State locks.State)
      → method_of request ≡ get
      → asks_status request ≡ false
      → stored (handle keys locks settings rt provider request s).1 ≡ stored s
  unfolding handle
  handle-stored liveness s g a = session-stored _ health s (search (keeps_rules, utc_now-Same))
  handle-stored readiness s g a = session-stored _ health s (search (keeps_rules, utc_now-Same))
  handle-stored sync_catalog s g a = absurd (ground arith)
  handle-stored list_products s g a =
      session-stored _ products s (list_products-Same s.world.tables settings.name_leb)
  handle-stored list_all_packages s g a =
      session-stored _ packages s (list_all_packages-Same s.world.tables settings.name_leb)
  handle-stored (get_product id) s g a =
      session-stored _ product s (get_product-Same s.world.tables id)
  handle-stored (create_order body raw key) s g a = absurd (ground arith)
  handle-stored (get_order id) s g a =
      session-stored _ order s (order-Same s.world.tables rt provider id)
  handle-stored (refresh_order id) s g a = absurd (ground arith)
  handle-stored (get_order_esims id) s g a =
      session-stored _ order_esims s (get_order_esims-Same s.world.tables rt provider id)
  handle-stored (topup_order id body raw key) s g a = absurd (ground arith)
  handle-stored (cancel_order id raw key) s g a = absurd (ground arith)
  handle-stored (get_esim id) s g a = session-stored _ esim s (esim-Same s.world.tables id)
  handle-stored (get_esim_status id) s g a = absurd (ground arith)
  handle-stored (get_esim_history id) s g a =
      session-stored _ esim_history s (get_esim_history-Same s.world.tables id)
  handle-stored (esim_access_webhook payload) s g a = absurd (ground arith)
  handle-stored get_balance s g a =
      session-stored _ balance s (get_balance-Same s.world.tables provider)
  handle-stored trigger_reconciliation s g a = absurd (ground arith)
  handle-stored (list_webhook_events limit) s g a =
      session-stored _ events s (list_webhook_events-Same s.world.tables limit)

  admit-stored :
      (r : Result (Unit {0})) (request : Request) (s : Service keys.State locks.State)
      → method_of request ≡ get
      → asks_status request ≡ false
      → stored (admit r (handle keys locks settings rt provider request) s).1 ≡ stored s
  admit-stored (ok _) request s g a = handle-stored request s g a
  admit-stored (err e) request s g a = refl

  -- A GET request, other than that for the status of an eSIM at the provider, changes no table, no
  -- idempotency key and no lock, whoever sends it and however it is answered.
  pub serve-stored :
      (header : Option String) (generated : String) (credentials : Option String)
      (request : Request) (s : Service keys.State locks.State)
      → method_of request ≡ get
      → asks_status request ≡ false
      → stored (serve keys locks settings rt provider header generated credentials request s).1
        ≡ stored s
  unfolding serve
  serve-stored header generated credentials request s g a =
      admit-stored (authorised (scope_of request) settings.registry credentials) request s g a
