-- ===== src/Webhook/Process.antt =====
-- `process_webhook` of webhook.py, and the refresh that follows an event.
use seemsim_esim_gateway.Prelude.{String, false, Option, none, some}
use seemsim_esim_gateway.Python.Json.{Object}
use seemsim_esim_gateway.Python.Runtime.{Runtime}
use seemsim_esim_gateway.Errors.{message}
use seemsim_esim_gateway.Models.{ProviderWebhookEvent}
use seemsim_esim_gateway.Exec.{Result, ok, err, lift, attempt, pure, ◌>>=◌, ◌>>◌}
use seemsim_esim_gateway.Db.{M, uuid4}
use seemsim_esim_gateway.Db.Repositories.Orders
use seemsim_esim_gateway.Db.Repositories.Webhooks
use seemsim_esim_gateway.Providers.Base.{BaseEsimProvider, NormalizedWebhook}
use seemsim_esim_gateway.Sync.Order.{sync_order}
use seemsim_esim_gateway.Webhook.Handlers.{when_given, when_found, handle_event}

abbrev pub pending_event : String → String → NormalizedWebhook → Object → ProviderWebhookEvent
pending_event id provider_name d raw_payload = record {
  id = id;
  provider_name = provider_name;
  event_type = d.event_type;
  order_no = d.order_no;
  iccid = d.iccid;
  transaction_id = d.transaction_id;
  payload = raw_payload;
  processed = false;
  processing_status = "pending";
  processing_error = none;
  processed_at = none;
}

module _ (rt : Runtime) (provider : BaseEsimProvider) where
  -- `_trigger_provider_refresh`
  unfoldable pub trigger_provider_refresh : NormalizedWebhook → M (Unit {0})
  trigger_provider_refresh d = when_given d.order_no λ order_no. do
    found ← Orders.get_by_provider_order_no order_no
    when_found found λ order. do attempt (sync_order rt provider order "webhook"); pure tt

  -- The body of the `try` before `mark_processed`.
  unfoldable pub handle_and_refresh : NormalizedWebhook → M (Unit {0})
  unfolding trigger_provider_refresh
  handle_and_refresh d = do handle_event rt d; trigger_provider_refresh d

  -- `mark_processed` after the `try` or in its handler.
  unfoldable pub mark_outcome : String → Result (Unit {0}) → M String
  mark_outcome event_id (ok _) = do Webhooks.mark_processed rt event_id none; pure event_id
  mark_outcome event_id (err e) = do
    Webhooks.mark_processed rt event_id (some (message e))
    pure event_id

  -- What follows the search for a duplicate.
  unfoldable pub process_unless :
      String → NormalizedWebhook → Option ProviderWebhookEvent → M String
  unfolding mark_outcome
  process_unless event_id d (some existing) = do
    Webhooks.mark_processed rt event_id none
    pure event_id
  process_unless event_id d none = do
    outcome ← attempt (handle_and_refresh d)
    mark_outcome event_id outcome

  -- `process_webhook`
  unfoldable pub process_webhook : Object → M String
  unfolding process_unless
  process_webhook raw_payload = do
    d ← lift (provider.handle_webhook raw_payload)
    event_id ← uuid4 rt
    Webhooks.create (pending_event event_id provider.provider_name d raw_payload)
    existing ← Webhooks.find_processed_duplicate d.order_no d.event_type
    process_unless event_id d existing
