-- ===== src/Db/Repositories/Webhooks.antt =====
-- app/repositories/webhook.py.
use seemsim_esim_gateway.Prelude.{
  ℕ, String, Bool, true, false, not, ◌&&◌, Option, none, some, List, [], ◌∷◌, ◌++◌, take,
  select_where, if◌then◌else◌, ◌==◌,
}
use seemsim_esim_gateway.Python.Runtime.{Runtime}
use seemsim_esim_gateway.Models.{ProviderWebhookEvent}
use seemsim_esim_gateway.Exec.{gets, lift, ◌>>=◌, ◌>>◌, pure}
use seemsim_esim_gateway.Db.{M, modify_tables, utc_now}
use seemsim_esim_gateway.Db.Table.{find_row, update_row, scalar_one_or_none}
use seemsim_esim_gateway.Db.Repositories.Orders.{column_is}

abbrev pub event_key : ProviderWebhookEvent → String
event_key e = e.id

abbrev pub set_events : (List ProviderWebhookEvent → List ProviderWebhookEvent) → M (Unit {0})
set_events f = modify_tables (λ t. record t { webhook_events = f t.webhook_events })

-- `WebhookRepository.create`
unfoldable pub create : ProviderWebhookEvent → M ProviderWebhookEvent
create event = do set_events (λ rows. rows ++ event ∷ []); pure event

-- `WebhookRepository.get_by_id`
unfoldable pub get_by_id : String → M (Option ProviderWebhookEvent)
get_by_id event_id = gets (λ w. find_row event_key event_id w.webhook_events)

-- `bool(error)` of an `str | None`
abbrev pub is_error : Option String → Bool
is_error none = false
is_error (some s) = not (s == "")

-- The assignments of `mark_processed`.
abbrev pub processed_at : ℕ → Option String → ProviderWebhookEvent → ProviderWebhookEvent
processed_at now error e = record e {
  processed = true;
  processed_at = some now;
  processing_status = if is_error error then "failed" else "processed";
  processing_error = error;
}

-- `WebhookRepository.mark_processed`
unfoldable pub mark_processed : Runtime → String → Option String → M (Option ProviderWebhookEvent)
unfolding get_by_id
mark_processed rt event_id error = do
  found ← get_by_id event_id
  elim found [
    | none ↦ pure none
    | some event ↦ do
      now ← utc_now rt
      set_events (update_row event_key event_id (processed_at now error))
      get_by_id event_id
  ]

-- `WebhookRepository.get_unprocessed`; rows are inserted in the order of their `created_at`.
unfoldable pub get_unprocessed : ℕ → M (List ProviderWebhookEvent)
get_unprocessed limit = do
  rows ← gets (λ w. w.webhook_events)
  pure (take limit (select_where (λ e. not e.processed) rows))

-- The `where` clauses of `find_processed_duplicate`.
abbrev pub is_processed_duplicate : String → String → ProviderWebhookEvent → Bool
is_processed_duplicate order_no event_type e =
    column_is e.order_no order_no
    && e.event_type == event_type
    && e.processing_status == "processed"

-- `WebhookRepository.find_processed_duplicate`
unfoldable pub find_processed_duplicate : Option String → String → M (Option ProviderWebhookEvent)
find_processed_duplicate none event_type = pure none
find_processed_duplicate (some order_no) event_type = if order_no == "" then pure none else do
  rows ← gets (λ w. w.webhook_events)
  lift
      (scalar_one_or_none (take 1 (select_where (is_processed_duplicate order_no event_type) rows)))
