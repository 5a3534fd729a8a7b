-- ===== src/Webhook/Outcomes.antt =====
-- `process_webhook` of webhook.py: how it ends, and duplicates.
use seemsim_esim_gateway.Prelude.{
  String, true, false, Option, none, some, List, [], ◌∷◌, ◌++◌, select_where, ◌==◌, ◌≡◌, ◌≢◌, refl,
  ap, arith, eq_refl, ◌∙◌, ℕ, if◌then◌else◌, Bool-cases, inl, inr,
}
use seemsim_esim_gateway.Python.Json.{Object}
use seemsim_esim_gateway.Python.Runtime.{Runtime}
use seemsim_esim_gateway.Errors.{message}
use seemsim_esim_gateway.Models.{ProviderWebhookEvent}
use seemsim_esim_gateway.Exec.{Result, ok, err, returns}
use seemsim_esim_gateway.Db.{World}
use seemsim_esim_gateway.Db.Table.{find_row, find-update_row, find-append_new}
use seemsim_esim_gateway.Db.Repositories.Webhooks
use seemsim_esim_gateway.Db.Repositories.Webhooks.{
  event_key, is_processed_duplicate, processed_at, is_error,
}
use seemsim_esim_gateway.Providers.Base.{BaseEsimProvider, NormalizedWebhook}
use seemsim_esim_gateway.Sync.Outside.{Rest, rest_of}
use seemsim_esim_gateway.Webhook.Frame.{handle_and_refresh-Outside}
use seemsim_esim_gateway.Webhook.Process.{
  pending_event, handle_and_refresh, mark_outcome, process_unless, process_webhook,
}
use seemsim_esim_gateway.Webhook.Events.{
  handled_event, HasDuplicate, select-append, found_duplicate, mark-tables, mark-new, mark-returns,
  stored, process-eq,
}

module _ (rt : Runtime) (provider : BaseEsimProvider) where
  process_unless-duplicate :
      (id : String) (d : NormalizedWebhook) (e : ProviderWebhookEvent) (w : World)
      → let (r, w') = process_unless rt provider id d (some e) w in
        (r ≡ ok id) × (w'.tables ≡ record w.tables { webhook_events = w'.webhook_events })
  unfolding process_unless
  process_unless-duplicate id d e w = (
    ground (arith, mark-returns rt id none w),
    ground (arith, mark-returns rt id none w, mark-tables rt id none w),
  )

  stored-duplicate :
      (raw : Object) (d : NormalizedWebhook) (order_no : String) (w : World)
      → d.order_no ≡ some order_no
      → order_no ≢ ""
      → (dup : HasDuplicate order_no d.event_type w)
      → Webhooks.find_processed_duplicate d.order_no d.event_type (stored rt provider raw d w)
        ≡ (ok (some dup.0), stored rt provider raw d w)
  stored-duplicate raw d order_no w o ne (e, rest, h) =
      found_duplicate d.order_no order_no d.event_type e rest (stored rt provider raw d w) o ne (
        select-append (is_processed_duplicate order_no d.event_type) w.webhook_events
          (pending_event (rt.uuid4 w.drawn) provider.provider_name d raw) (ground arith)
        ∙ h)

  -- A webhook for an order and an event type of which an event was already processed is stored as one
  -- more processed event, with its payload and no error, if the new identifier is not in use; every
  -- other row and table stays as it was: neither the handler nor the refresh runs, whatever the webhook
  -- says.
  pub process_webhook-duplicate :
      (raw : Object) (d : NormalizedWebhook) (order_no : String) (w : World)
      → provider.handle_webhook raw ≡ ok d
      → d.order_no ≡ some order_no
      → order_no ≢ ""
      → HasDuplicate order_no d.event_type w
      → find_row event_key (rt.uuid4 w.drawn) w.webhook_events ≡ none
      → let (r, w') = process_webhook rt provider raw w in
        (r ≡ ok (rt.uuid4 w.drawn))
        × (w'.tables ≡ record w.tables {
          webhook_events =
              w.webhook_events
              ++ handled_event
                  (rt.uuid4 w.drawn)
                  provider.provider_name
                  d
                  raw
                  "processed"
                  none
                  (rt.utc_now w.reads)
                ∷ [];
        })
  process_webhook-duplicate raw d order_no w h o ne dup new =
      let (returned, tables) =
        process_unless-duplicate (rt.uuid4 w.drawn) d dup.0 (stored rt provider raw d w) in
      rw
        (process-eq rt provider raw d (some dup.0) w h (stored-duplicate raw d order_no w o ne dup))
        (
          returned,
          tables
              ∙ ap (λ events. record w.tables { webhook_events = events })
                  (unfold process_unless in
                    ground (
                      arith,
                      mark-returns rt (rt.uuid4 w.drawn) none (stored rt provider raw d w),
                      mark-new rt none w.webhook_events
                          (pending_event (rt.uuid4 w.drawn) provider.provider_name d raw)
                          (stored rt provider raw d w) refl new,
                    )),
        )

-- The processed events that an incoming one would repeat.
abbrev pub duplicates : Option String → String → World → List ProviderWebhookEvent
duplicates none event_type w = []
duplicates (some order_no) event_type w =
    select_where (is_processed_duplicate order_no event_type) w.webhook_events

-- The status of a webhook whose handling returned, or raised: an exception without a text leaves no
-- trace.
abbrev pub status_after : Result (Unit {0}) → String
status_after (ok _) = "processed"
status_after (err e) = if message e == "" then "processed" else "failed"

-- The error that is stored.
abbrev pub error_of : Result (Unit {0}) → Option String
error_of (ok _) = none
error_of (err e) = some (message e)

marked-handled :
    (id provider_name : String) (d : NormalizedWebhook) (raw : Object) (now : ℕ)
    (outcome : Result (Unit {0}))
    → processed_at now (error_of outcome) (pending_event id provider_name d raw)
      ≡ handled_event id provider_name d raw (status_after outcome) (error_of outcome) now
marked-handled id provider_name d raw now (ok _) = refl
marked-handled id provider_name d raw now (err e) = elim (Bool-cases (message e == "")) [
  | inl h ↦ rw h refl
  | inr h ↦ rw h refl
]

no_duplicate :
    (o : Option String) (event_type : String) (w : World)
    → duplicates o event_type w ≡ []
    → Webhooks.find_processed_duplicate o event_type w ≡ (ok none, w)
unfolding Webhooks.find_processed_duplicate
no_duplicate none event_type w h = refl
no_duplicate (some order_no) event_type w h = ground arith

duplicates-append :
    (o : Option String) (event_type : String) (w w' : World) (e : ProviderWebhookEvent)
    → w'.webhook_events ≡ w.webhook_events ++ e ∷ []
    → (e.processing_status == "processed") ≡ false
    → duplicates o event_type w ≡ []
    → duplicates o event_type w' ≡ []
duplicates-append none event_type w w' e p q h = refl
duplicates-append (some order_no) event_type w w' e p q h =
    ap (select_where (is_processed_duplicate order_no event_type)) p
    ∙ select-append (is_processed_duplicate order_no event_type) w.webhook_events e (ground arith)
    ∙ h

module _ (rt : Runtime) where
  find-mark_processed :
      (id : String) (error : Option String) (e : ProviderWebhookEvent) (w : World)
      → e.id ≡ id
      → find_row event_key id w.webhook_events ≡ some e
      → let (r, w') = Webhooks.mark_processed rt id error w in
        (returns r ≡ true)
        × (find_row event_key id w'.webhook_events
            ≡ some (processed_at (rt.utc_now w.reads) error e))
  unfolding Webhooks.mark_processed
  find-mark_processed id error e w p h = ground (
    arith,
    find-update_row event_key id (processed_at (rt.utc_now w.reads) error) (λ _ q. q) id
        w.webhook_events,
    eq_refl id,
  )

  find-mark_outcome :
      (provider : BaseEsimProvider) (id : String) (outcome : Result (Unit {0}))
      (e : ProviderWebhookEvent) (w : World)
      → e.id ≡ id
      → find_row event_key id w.webhook_events ≡ some e
      → let (r, w') = mark_outcome rt provider id outcome w in
        (r ≡ ok id)
        × (find_row event_key id w'.webhook_events
            ≡ some (processed_at (rt.utc_now w.reads) (error_of outcome) e))
  unfolding mark_outcome
  find-mark_outcome provider id (ok _) e w p h = ground (arith, find-mark_processed id none e w p h)
  find-mark_outcome provider id (err x) e w p h =
      ground (arith, find-mark_processed id (some (message x)) e w p h)

module _ (rt : Runtime) (provider : BaseEsimProvider) where
  -- A webhook that the provider normalises and that repeats no processed event never makes
  -- `process_webhook` raise, if the new identifier is not in use: it returns that identifier, under
  -- which the event is stored as processed, with what the provider normalised and the payload. Its
  -- status is "processed" and its error null if handling and refresh returned; otherwise its error is
  -- the exception's text, and its status "failed", or "processed" where that text is empty.
  pub process_webhook-outcome :
      (raw : Object) (d : NormalizedWebhook) (w : World)
      → provider.handle_webhook raw ≡ ok d
      → duplicates d.order_no d.event_type w ≡ []
      → find_row event_key (rt.uuid4 w.drawn) w.webhook_events ≡ none
      → let (outcome, w₁) = handle_and_refresh rt provider d (stored rt provider raw d w) in
        let (r, w') = process_webhook rt provider raw w in
        (r ≡ ok (rt.uuid4 w.drawn))
        × (find_row event_key (rt.uuid4 w.drawn) w'.webhook_events
            ≡ some (
                handled_event
                  (rt.uuid4 w.drawn)
                  provider.provider_name
                  d
                  raw
                  (status_after outcome)
                  (error_of outcome)
                  (rt.utc_now w₁.reads)))
  process_webhook-outcome raw d w h no_dup new =
      let w₀ = stored rt provider raw d w in
      let event = pending_event (rt.uuid4 w.drawn) provider.provider_name d raw in
      let (outcome, w₁) = handle_and_refresh rt provider d w₀ in
      rw
        (process-eq rt provider raw d none w h (
          no_duplicate d.order_no d.event_type w₀
            (duplicates-append d.order_no d.event_type w w₀ event refl refl no_dup)))
        (unfold process_unless in
          let (returned, marked) =
            find-mark_outcome rt provider (rt.uuid4 w.drawn) outcome event w₁ refl (
              ap (λ (t : Rest). find_row event_key (rt.uuid4 w.drawn) t.0)
                ((handle_and_refresh-Outside (rest_of w₀) rt provider d).at w₀ refl)
              ∙ find-append_new event_key w.webhook_events event new) in
          (
            returned,
            marked
                ∙ ap some (
                    marked-handled (rt.uuid4 w.drawn) provider.provider_name d raw
                      (rt.utc_now w₁.reads) outcome),
          ))
