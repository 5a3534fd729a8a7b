-- ===== src/Sync/Outside.antt =====
-- The tables of events, operations and the catalog, across `sync_order` of state_sync.py.
use seemsim_esim_gateway.Prelude.{ℕ, String, Option, none, some, List, ◌≡◌, refl, ap, ◌∙◌}
use seemsim_esim_gateway.Python.Json.{Value, Array, nil, cons, Object}
use seemsim_esim_gateway.Python.Runtime.{Runtime}
use seemsim_esim_gateway.Models.{
  ProviderOrder, OrderStateHistory, OperationLog, ProviderWebhookEvent,
}
use seemsim_esim_gateway.Models.Product.{ProviderProduct, ProviderPackage}
use seemsim_esim_gateway.Exec.{Result, ok, err}
use seemsim_esim_gateway.Exec.Keeps.{Keeps, Keeps-pure, Keeps-raise, keeps_rules}
use seemsim_esim_gateway.Db.{World, uuid4, utc_now, call}
use seemsim_esim_gateway.Db.Repositories.Orders
use seemsim_esim_gateway.Providers.Base.{BaseEsimProvider}
use seemsim_esim_gateway.Sync.Order.{
  merge_all, record_state, merge_list, merge_reported, merge_query, after_query, sync_by,
  sync_order,
}
use seemsim_esim_gateway.Sync.Frame.{others, merge_all-Same}

abbrev pub Rest : Type 0
Rest = List ProviderWebhookEvent × List OperationLog × List ProviderProduct × List ProviderPackage

-- The tables of the events, the operations and the catalog.
abbrev pub rest_of : World → Rest
rest_of w = (w.webhook_events, w.operation_logs, w.products, w.packages)

module _ (c : Rest) where
  abbrev pub Outside : World → Type 0
  Outside w = rest_of w ≡ c

  set_order-Outside :
      (id : String) (f : ProviderOrder → ProviderOrder) → Keeps Outside (Orders.mutate id f)
  unfolding Orders.mutate
  set_order-Outside id f = record { at = λ w h. h }

  order_history-Outside : (x : OrderStateHistory) → Keeps Outside (Orders.add_state_history x)
  unfolding Orders.add_state_history
  order_history-Outside x = record { at = λ w h. h }

  uuid4-Outside : (rt : Runtime) → Keeps Outside (uuid4 rt)
  uuid4-Outside rt = record { at = λ w h. h }

  utc_now-Outside : (rt : Runtime) → Keeps Outside (utc_now rt)
  utc_now-Outside rt = record { at = λ w h. h }

  call-Outside : {A : Type 0} (f : ℕ → Result A) → Keeps Outside (call f)
  call-Outside f = record { at = λ w h. h }

  module _ (rt : Runtime) (provider : BaseEsimProvider) where
    merge_all-Outside :
        (order : ProviderOrder) (records : Array) (source : String)
        → Keeps Outside (merge_all rt provider order records source)
    merge_all-Outside order records source = record {
      at = λ w h.
          ap (λ t. (t.3, t.2, t.4, t.5))
            ((merge_all-Same (others w) rt provider order records source).at w refl)
          ∙ h;
    }

    record_state-Outside :
        (old new : ProviderOrder) (raw : String) (query : Object) (source : String)
        → Keeps Outside (record_state rt provider old new raw query source)
    unfolding record_state
    record_state-Outside old new raw query source =
        search (keeps_rules, uuid4-Outside, order_history-Outside)

    merge_list-Outside :
        (order : ProviderOrder) (query : Object) (records : Array) (source : String)
        → Keeps Outside (merge_list rt provider order query records source)
    unfolding merge_list
    merge_list-Outside order query nil source = Keeps-raise _
    merge_list-Outside order query (cons v records) source =
        search (keeps_rules, set_order-Outside, record_state-Outside, merge_all-Outside) depth 7

    merge_reported-Outside :
        (order : ProviderOrder) (query : Object) (source : String)
        → Keeps Outside (merge_reported rt provider order query source)
    unfolding merge_reported
    merge_reported-Outside order query source = search (keeps_rules, merge_list-Outside)

    merge_query-Outside :
        (order : ProviderOrder) (query : Value) (source : String)
        → Keeps Outside (merge_query rt provider order query source)
    unfolding merge_query
    merge_query-Outside order query source =
        search (keeps_rules, utc_now-Outside, set_order-Outside, merge_reported-Outside)

    after_query-Outside :
        (order : ProviderOrder) (source : String) (answer : Result Value)
        → Keeps Outside (after_query rt provider order source answer)
    unfolding after_query
    after_query-Outside order source (err e) = Keeps-pure _
    after_query-Outside order source (ok query) = merge_query-Outside order query source

    sync_by-Outside :
        (number : Option String) (order : ProviderOrder) (source : String)
        → Keeps Outside (sync_by rt provider number order source)
    unfolding sync_by
    sync_by-Outside none order source = Keeps-pure _
    sync_by-Outside (some number) order source =
        search (keeps_rules, call-Outside, after_query-Outside)

    pub sync_order-Outside :
        (order : ProviderOrder) (source : String)
        → Keeps Outside (sync_order rt provider order source)
    unfolding sync_order
    sync_order-Outside order source = sync_by-Outside order.provider_order_no order source
