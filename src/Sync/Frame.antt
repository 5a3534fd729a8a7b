-- ===== src/Sync/Frame.antt =====
-- The tables other than those of the eSIMs, across `_merge_esim_record` of state_sync.py.
use seemsim_esim_gateway.Prelude.{String, Option, none, some, List, [], ◌≡◌, arith}
use seemsim_esim_gateway.Python.Json.{Value, Array, nil, cons, Object}
use seemsim_esim_gateway.Python.Runtime.{Runtime}
use seemsim_esim_gateway.Models.{
  ProviderOrder, OrderStateHistory, OperationLog, ProviderWebhookEvent,
}
use seemsim_esim_gateway.Models.Esim.{Esim, EsimStatusHistory}
use seemsim_esim_gateway.Models.Product.{ProviderProduct, ProviderPackage}
use seemsim_esim_gateway.Exec.Keeps.{Keeps, Keeps-pure, keeps_rules}
use seemsim_esim_gateway.Db.{World, M, uuid4, utc_now}
use seemsim_esim_gateway.Db.Repositories.Esims
use seemsim_esim_gateway.Providers.Base.{BaseEsimProvider}
use seemsim_esim_gateway.Sync.Merge.{
  create_unless, get_or_create, record_change, update_esim, merge_esim_record,
}
use seemsim_esim_gateway.Sync.Order.{merge_next, merge_all}

-- The tables that are not of eSIMs.
abbrev pub others :
    World
    → List ProviderOrder
      × List OrderStateHistory
      × List OperationLog
      × List ProviderWebhookEvent
      × List ProviderProduct
      × List ProviderPackage
others w =
    (w.orders, w.order_state_history, w.operation_logs, w.webhook_events, w.products, w.packages)

module _
    (c : List ProviderOrder
      × List OrderStateHistory
      × List OperationLog
      × List ProviderWebhookEvent
      × List ProviderProduct
      × List ProviderPackage) where
  abbrev Same : World → Type 0
  Same w = others w ≡ c

  pub create-Same : (e : Esim) → Keeps Same (Esims.create e)
  unfolding Esims.create
  create-Same e = record { at = λ w h. ground arith }

  pub mutate-Same : (id : String) (f : Esim → Esim) → Keeps Same (Esims.mutate id f)
  unfolding Esims.mutate
  mutate-Same id f = record { at = λ w h. h }

  pub get_by_iccid-Same : (iccid : String) → Keeps Same (Esims.get_by_iccid iccid)
  unfolding Esims.get_by_iccid
  get_by_iccid-Same iccid = record { at = λ w h. h }

  pub history-Same : (x : EsimStatusHistory) → Keeps Same (Esims.add_status_history x)
  unfolding Esims.add_status_history
  history-Same x = record { at = λ w h. h }

  pub uuid4-Same : (rt : Runtime) → Keeps Same (uuid4 rt)
  uuid4-Same rt = record { at = λ w h. h }

  pub utc_now-Same : (rt : Runtime) → Keeps Same (utc_now rt)
  utc_now-Same rt = record { at = λ w h. h }

  module _ (rt : Runtime) (provider : BaseEsimProvider) where
    create_unless-Same :
        (order : ProviderOrder) (iccid : String) (found : Option Esim)
        → Keeps Same (create_unless rt provider order iccid found)
    unfolding create_unless
    create_unless-Same order iccid (some e) = Keeps-pure e
    create_unless-Same order iccid none =
        search (keeps_rules, create-Same, uuid4-Same, utc_now-Same)

    get_or_create-Same :
        (order : ProviderOrder) (iccid : String)
        → Keeps Same (get_or_create rt provider order iccid)
    unfolding get_or_create
    get_or_create-Same order iccid = search (keeps_rules, get_by_iccid-Same, create_unless-Same)

    record_change-Same :
        (e : Esim) (s source : String) → Keeps Same (record_change rt provider e s source)
    unfolding record_change
    record_change-Same e s source = search (keeps_rules, history-Same, uuid4-Same, utc_now-Same)

    update_esim-Same : (e : Esim) (entry : Object) → Keeps Same (update_esim rt provider e entry)
    unfolding update_esim
    update_esim-Same e entry = search (keeps_rules, mutate-Same)

    pub merge_esim_record-Same :
        (order : ProviderOrder) (entry : Object) (source : String)
        → Keeps Same (merge_esim_record rt provider order entry source)
    unfolding merge_esim_record
    merge_esim_record-Same order entry source =
        search (keeps_rules, get_or_create-Same, update_esim-Same, record_change-Same)

    merge_next-Same :
        (order : ProviderOrder) (v : Value) (source : String) (rest : M (List Esim))
        → Keeps Same rest
        → Keeps Same (merge_next rt provider order v source rest)
    unfolding merge_next
    merge_next-Same order v source rest k = search (keeps_rules, merge_esim_record-Same)

    -- The loop over the records leaves every other table alone, also when it raises.
    pub merge_all-Same :
        (order : ProviderOrder) (records : Array) (source : String)
        → Keeps Same (merge_all rt provider order records source)
    unfolding merge_all
    merge_all-Same order nil source = Keeps-pure []
    merge_all-Same order (cons v records) source =
        merge_next-Same order v source _ (merge_all-Same order records source)
