-- ===== src/Api/Admin.antt =====
-- app/api/v1/admin.py, and the endpoint of app/api/v1/webhooks.py.
use seemsim_esim_gateway.Prelude.{
  ℕ, String, true, Option, none, some, List, map, reverse, take, leb, if◌then◌else◌,
}
use seemsim_esim_gateway.Prelude.Int.{ℤ, pos, negsuc}
use seemsim_esim_gateway.Python.Json.{Object}
use seemsim_esim_gateway.Python.Runtime.{Runtime}
use seemsim_esim_gateway.Errors.{builtin}
use seemsim_esim_gateway.Models.{ProviderWebhookEvent}
use seemsim_esim_gateway.Exec.{Exec, pure, raise, gets, ◌>>=◌}
use seemsim_esim_gateway.Db.{M, call}
use seemsim_esim_gateway.Redis.{Redis}
use seemsim_esim_gateway.Providers.Base.{BaseEsimProvider, ProviderBalance}
use seemsim_esim_gateway.Webhook.Process.{process_webhook}
use seemsim_esim_gateway.Reconciliation.Job.{Job, reconcile_pending_orders}
use seemsim_esim_gateway.Schemas.{ApiResponse, api_response, WebhookResponse}

-- `get_balance`
unfoldable pub get_balance : BaseEsimProvider → M (ApiResponse ProviderBalance)
get_balance provider = do balance ← call provider.get_balance; pure (api_response balance)

-- `trigger_reconciliation`: the reconciled count.
unfoldable pub trigger_reconciliation :
    (redis : Redis String) → Runtime → BaseEsimProvider → Exec (Job redis.State) (ApiResponse ℕ)
trigger_reconciliation redis rt provider = do
  reconciled ← reconcile_pending_orders rt provider redis
  pure (api_response reconciled)

-- One item of `list_webhook_events`, without the time at which the event was received.
pub record WebhookEventItem : Type 0 where
  pub id : String
  pub event_type : String
  pub order_no : Option String
  pub iccid : Option String
  pub processing_status : String
  pub processing_error : Option String
  pub processed_at : Option ℕ

abbrev pub event_item : ProviderWebhookEvent → WebhookEventItem
event_item e = record {
  id = e.id;
  event_type = e.event_type;
  order_no = e.order_no;
  iccid = e.iccid;
  processing_status = e.processing_status;
  processing_error = e.processing_error;
  processed_at = e.processed_at;
}

-- `min(limit, 200)` as the bound of the query; the database refuses a negative one.
abbrev pub bound : ℤ → Option ℕ
bound (pos n) = some (if leb n 200 then n else 200)
bound (negsuc n) = none

-- The query; rows are inserted in the order of their `created_at`.
unfoldable pub latest_events : Option ℕ → M (List ProviderWebhookEvent)
latest_events none = raise (builtin "DBAPIError" "LIMIT must not be negative")
latest_events (some n) = gets (λ w. take n (reverse w.webhook_events))

-- `list_webhook_events`
unfoldable pub list_webhook_events : ℤ → M (ApiResponse (List WebhookEventItem))
unfolding latest_events
list_webhook_events limit = do
  events ← latest_events (bound limit)
  pure (api_response (map event_item events))

-- `esim_access_webhook`
unfoldable pub esim_access_webhook :
    Runtime → BaseEsimProvider → Object → M (ApiResponse WebhookResponse)
esim_access_webhook rt provider payload = do
  event_id ← process_webhook rt provider payload
  pure (api_response (record { received = true; event_id = some event_id }))
