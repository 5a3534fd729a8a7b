-- ===== src/Tests/WebhookRuns.antt =====
-- Runs of the webhook service.
use seemsim_esim_gateway.Prelude.{some, none, [], ◌∷◌, ◌≡◌, refl}
use seemsim_esim_gateway.Python.Json.{end}
use seemsim_esim_gateway.Exec.{ok}
use seemsim_esim_gateway.Db.{World}
use seemsim_esim_gateway.Db.Table.{find_row}
use seemsim_esim_gateway.Db.Repositories.Webhooks.{event_key}
use seemsim_esim_gateway.Sync.Terminal.{stored_status}
use seemsim_esim_gateway.Webhook.Handlers.{handle_order_status}
use seemsim_esim_gateway.Webhook.Process.{pending_event, handle_and_refresh, process_webhook}
use seemsim_esim_gateway.Webhook.Events.{handled_event}
use seemsim_esim_gateway.Webhook.Outcomes.{
  error_of, status_after, process_webhook-duplicate, process_webhook-outcome,
}
use seemsim_esim_gateway.Webhook.Status.{handle_order_status-overwrites}
use seemsim_esim_gateway.Tests.Sample.{
  sample_runtime, accepting, order_with, order_event, processed_event, number, number_given,
  no_tables, world_of, world_with,
}

process_webhook-outcome_example :
    let (outcome, w₁) =
      handle_and_refresh sample_runtime accepting order_event (record (world_with "cancelled") {
        tables = record (world_with "cancelled").tables {
          webhook_events = pending_event "id-0" "esim_access" order_event end ∷ [];
        };
        drawn = 1;
      }) in
    let (r, w') = process_webhook sample_runtime accepting end (world_with "cancelled") in
    (r ≡ ok "id-0")
    × (find_row event_key "id-0" w'.webhook_events
        ≡ some (
            handled_event "id-0" "esim_access" order_event end
              (status_after outcome)
              (error_of outcome)
              (sample_runtime.utc_now w₁.reads)))
unfolding find_row seemsim_esim_gateway.Python.Number.text_of_int
process_webhook-outcome_example =
    process_webhook-outcome sample_runtime accepting end order_event (world_with "cancelled") refl
      refl refl

-- A world with an order and a processed event for it.
abbrev seen : World
seen = world_of (record no_tables {
  orders = order_with "processing" ∷ [];
  webhook_events = processed_event ∷ [];
})

process_webhook-duplicate_example :
    let (r, w') = process_webhook sample_runtime accepting end seen in
    (r ≡ ok "id-0")
    × (w'.tables ≡ record seen.tables {
      webhook_events =
          processed_event
          ∷ handled_event "id-0" "esim_access" order_event end "processed" none 1000000000
          ∷ [];
    })
unfolding find_row seemsim_esim_gateway.Python.Number.text_of_int
process_webhook-duplicate_example =
    process_webhook-duplicate sample_runtime accepting end order_event number seen refl refl
      number_given (processed_event, [], refl) refl

handle_order_status-overwrites_example :
    let (r, w') = handle_order_status order_event (world_with "cancelled") in
    (r ≡ ok tt) × (stored_status "o1" w' ≡ some "processing") × (w'.order_state_history ≡ [])
unfolding find_row
handle_order_status-overwrites_example =
    handle_order_status-overwrites order_event (order_with "cancelled") number
      (world_with "cancelled") refl number_given refl refl
