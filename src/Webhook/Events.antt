-- ===== src/Webhook/Events.antt =====
-- The event that webhook.py stores, and what marking it does to its table.
use seemsim_esim_gateway.Prelude.{
  String, Bool, true, false, Option, none, some, List, [], ◌∷◌, ◌++◌, select_where, ◌≡◌, ◌≢◌, arith,
  eq_iff, ◌+◌, ℕ,
}
use seemsim_esim_gateway.Python.Json.{Object}
use seemsim_esim_gateway.Python.Runtime.{Runtime}
use seemsim_esim_gateway.Models.{ProviderWebhookEvent}
use seemsim_esim_gateway.Exec.{ok, returns}
use seemsim_esim_gateway.Db.{World}
use seemsim_esim_gateway.Db.Table.{find_row, find-append_new, update_row-append_new}
use seemsim_esim_gateway.Db.Repositories.Webhooks
use seemsim_esim_gateway.Db.Repositories.Webhooks.{
  event_key, is_processed_duplicate, processed_at, is_error,
}
use seemsim_esim_gateway.Providers.Base.{BaseEsimProvider, NormalizedWebhook}
use seemsim_esim_gateway.Webhook.Process.{pending_event, process_unless, process_webhook}

-- The row of an event that was handled: what the provider normalised, the payload, and how the
-- handling ended.
abbrev pub handled_event :
    String → String → NormalizedWebhook → Object → String → Option String → ℕ → ProviderWebhookEvent
handled_event id provider_name d raw status error now = record {
  id = id;
  provider_name = provider_name;
  event_type = d.event_type;
  order_no = d.order_no;
  iccid = d.iccid;
  transaction_id = d.transaction_id;
  payload = raw;
  processed = true;
  processing_status = status;
  processing_error = error;
  processed_at = some now;
}

-- A processed event of this order and type is stored.
abbrev pub HasDuplicate : String → String → World → Type 0
HasDuplicate order_no event_type w =
    (e : ProviderWebhookEvent) × (rest : List ProviderWebhookEvent) × (select_where
        (is_processed_duplicate order_no event_type) w.webhook_events
      ≡ e ∷ rest)

-- An event that is still pending is no duplicate of itself.
pub select-append :
    (p : ProviderWebhookEvent → Bool) (xs : List ProviderWebhookEvent) (y : ProviderWebhookEvent)
    → p y ≡ false
    → select_where p (xs ++ y ∷ []) ≡ select_where p xs
select-append p [] y h = ground arith
select-append p (x ∷ xs) y h = ground (arith, select-append p xs y h)

pub found_duplicate :
    (o : Option String) (order_no event_type : String) (e : ProviderWebhookEvent)
    (rest : List ProviderWebhookEvent) (w : World)
    → o ≡ some order_no
    → order_no ≢ ""
    → select_where (is_processed_duplicate order_no event_type) w.webhook_events ≡ e ∷ rest
    → Webhooks.find_processed_duplicate o event_type w ≡ (ok (some e), w)
unfolding Webhooks.find_processed_duplicate
found_duplicate o order_no event_type e rest w p ne h = ground (arith, eq_iff order_no "")

module _ (rt : Runtime) where
  -- Marking an event changes its table alone, and returns.
  pub mark-tables :
      (id : String) (error : Option String) (w : World)
      → let (r, w') = Webhooks.mark_processed rt id error w in
        (w'.tables ≡ record w.tables { webhook_events = w'.webhook_events })
  unfolding Webhooks.mark_processed
  mark-tables id error w = ground arith

  pub mark-new :
      (error : Option String) (events : List ProviderWebhookEvent) (e : ProviderWebhookEvent)
      (w : World)
      → w.webhook_events ≡ events ++ e ∷ []
      → find_row event_key e.id events ≡ none
      → (Webhooks.mark_processed rt e.id error w).1.webhook_events
        ≡ events ++ processed_at (rt.utc_now w.reads) error e ∷ []
  unfolding Webhooks.mark_processed
  mark-new error events e w h new = ground (
    arith,
    find-append_new event_key events e new,
    update_row-append_new event_key (processed_at (rt.utc_now w.reads) error) events e new,
  )

  pub mark-returns :
      (id : String) (error : Option String) (w : World)
      → returns (Webhooks.mark_processed rt id error w).0 ≡ true
  unfolding Webhooks.mark_processed
  mark-returns id error w = ground arith

module _ (rt : Runtime) (provider : BaseEsimProvider) where
  -- The world in which the new event is stored.
  abbrev pub stored : Object → NormalizedWebhook → World → World
  stored raw d w = record w {
    tables = record w.tables {
      webhook_events =
          w.webhook_events ++ pending_event (rt.uuid4 w.drawn) provider.provider_name d raw ∷ [];
    };
    drawn = w.drawn + 1;
  }

  pub process-eq :
      (raw : Object) (d : NormalizedWebhook) (existing : Option ProviderWebhookEvent) (w : World)
      → provider.handle_webhook raw ≡ ok d
      → Webhooks.find_processed_duplicate d.order_no d.event_type (stored raw d w)
        ≡ (ok existing, stored raw d w)
      → process_webhook rt provider raw w
        ≡ process_unless rt provider (rt.uuid4 w.drawn) d existing (stored raw d w)
  unfolding process_webhook Webhooks.create
  process-eq raw d existing w h k = ground arith
