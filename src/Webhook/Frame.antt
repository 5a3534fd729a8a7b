-- ===== src/Webhook/Frame.antt =====
-- The tables of events, operations and the catalog, across the handlers and the refresh of webhook.py.
use seemsim_esim_gateway.Prelude.{ℕ, String, Option, none, some, ◌==◌}
use seemsim_esim_gateway.Python.Json.{Value, null}
use seemsim_esim_gateway.Python.Runtime.{Runtime}
use seemsim_esim_gateway.Models.{ProviderOrder, OrderStateHistory}
use seemsim_esim_gateway.Models.Esim.{Esim, EsimStatusHistory, NumberColumn}
use seemsim_esim_gateway.Exec.{Result}
use seemsim_esim_gateway.Exec.Keeps.{Keeps, Keeps-pure, Keeps-if, keeps_rules}
use seemsim_esim_gateway.Db.{M, uuid4, utc_now, call}
use seemsim_esim_gateway.Db.Repositories.Orders
use seemsim_esim_gateway.Db.Repositories.Esims
use seemsim_esim_gateway.Providers.Base.{BaseEsimProvider, NormalizedWebhook}
use seemsim_esim_gateway.Sync.Outside.{Rest, Outside, sync_order-Outside}
use seemsim_esim_gateway.Webhook.Handlers.{
  when_found, when_given, handle_order_status, add_history, update_status, handle_esim_status,
  update_smdp, handle_smdp_event, assign_int, handle_data_usage, assign_expiry,
  handle_validity_usage, handle_event,
}
use seemsim_esim_gateway.Webhook.Process.{trigger_provider_refresh, handle_and_refresh}

module _ (c : Rest) where
  set_order-Outside :
      (id : String) (f : ProviderOrder → ProviderOrder) → Keeps (Outside c) (Orders.mutate id f)
  unfolding Orders.mutate
  set_order-Outside id f = record { at = λ w h. h }

  find_order-Outside :
      (number : String) → Keeps (Outside c) (Orders.get_by_provider_order_no number)
  unfolding Orders.get_by_provider_order_no
  find_order-Outside number = record { at = λ w h. h }

  order_history-Outside : (x : OrderStateHistory) → Keeps (Outside c) (Orders.add_state_history x)
  unfolding Orders.add_state_history
  order_history-Outside x = record { at = λ w h. h }

  set_esim-Outside : (id : String) (f : Esim → Esim) → Keeps (Outside c) (Esims.mutate id f)
  unfolding Esims.mutate
  set_esim-Outside id f = record { at = λ w h. h }

  find_esim-Outside : (iccid : String) → Keeps (Outside c) (Esims.get_by_iccid iccid)
  unfolding Esims.get_by_iccid
  find_esim-Outside iccid = record { at = λ w h. h }

  esim_history-Outside : (x : EsimStatusHistory) → Keeps (Outside c) (Esims.add_status_history x)
  unfolding Esims.add_status_history
  esim_history-Outside x = record { at = λ w h. h }

  uuid4-Outside : (rt : Runtime) → Keeps (Outside c) (uuid4 rt)
  uuid4-Outside rt = record { at = λ w h. h }

  utc_now-Outside : (rt : Runtime) → Keeps (Outside c) (utc_now rt)
  utc_now-Outside rt = record { at = λ w h. h }

  call-Outside : {A : Type 0} (f : ℕ → Result A) → Keeps (Outside c) (call f)
  call-Outside f = record { at = λ w h. h }

  when_found-Outside :
      {A : Type 0} (o : Option A) (f : A → M (Unit {0}))
      → ((a : A) → Keeps (Outside c) (f a))
      → Keeps (Outside c) (when_found o f)
  when_found-Outside none f k = Keeps-pure tt
  when_found-Outside (some a) f k = k a

  when_given-Outside :
      (o : Option String) (f : String → M (Unit {0}))
      → ((s : String) → Keeps (Outside c) (f s))
      → Keeps (Outside c) (when_given o f)
  when_given-Outside none f k = Keeps-pure tt
  when_given-Outside (some s) f k = Keeps-if (s == "") _ _ (λ _. Keeps-pure tt) (λ _. k s)

  module _ (rt : Runtime) (provider : BaseEsimProvider) where
    add_history-Outside :
        (e : Esim) (o : Option String) (s t : String) → Keeps (Outside c) (add_history rt e o s t)
    unfolding add_history
    add_history-Outside e o s t =
        search (keeps_rules, uuid4-Outside, utc_now-Outside, esim_history-Outside)

    update_status-Outside :
        (d : NormalizedWebhook) (e : Esim) → Keeps (Outside c) (update_status rt d e)
    unfolding update_status
    update_status-Outside d e = search (keeps_rules, set_esim-Outside, add_history-Outside)

    update_smdp-Outside : (o : Option String) (e : Esim) → Keeps (Outside c) (update_smdp rt o e)
    unfolding update_smdp
    update_smdp-Outside o e =
        when_given-Outside o _ λ s. search (keeps_rules, set_esim-Outside, add_history-Outside)

    assign_int-Outside :
        (id : String) (col : NumberColumn) (v : Value) → Keeps (Outside c) (assign_int rt id col v)
    unfolding assign_int
    assign_int-Outside id col null = Keeps-pure tt
    assign_int-Outside id col _ = search (keeps_rules, set_esim-Outside)

    assign_expiry-Outside : (id : String) (t : Option ℕ) → Keeps (Outside c) (assign_expiry rt id t)
    unfolding assign_expiry
    assign_expiry-Outside id none = Keeps-pure tt
    assign_expiry-Outside id (some t) = set_esim-Outside id _

    handle_event-Outside : (d : NormalizedWebhook) → Keeps (Outside c) (handle_event rt d)
    unfolding handle_event handle_order_status handle_esim_status handle_smdp_event
        handle_data_usage handle_validity_usage
    handle_event-Outside d =
        search
          (
            keeps_rules, when_given-Outside, when_found-Outside, find_order-Outside,
            find_esim-Outside, set_order-Outside, update_status-Outside, update_smdp-Outside,
            assign_int-Outside, assign_expiry-Outside,
          )
          depth 14

    refresh-Outside :
        (d : NormalizedWebhook) → Keeps (Outside c) (trigger_provider_refresh rt provider d)
    unfolding trigger_provider_refresh
    refresh-Outside d =
        search
          (
            keeps_rules,
            when_given-Outside,
            when_found-Outside,
            find_order-Outside,
            sync_order-Outside c,
          )
          depth 8

    pub handle_and_refresh-Outside :
        (d : NormalizedWebhook) → Keeps (Outside c) (handle_and_refresh rt provider d)
    unfolding handle_and_refresh
    handle_and_refresh-Outside d = search (keeps_rules, handle_event-Outside, refresh-Outside)
