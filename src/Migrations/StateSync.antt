-- ===== src/Migrations/StateSync.antt =====
-- alembic/versions/002_state_sync.py.
use seemsim_esim_gateway.Prelude.{List, [], ◌∷◌}
use seemsim_esim_gateway.Migrations.Operations.{
  Operation, create_table, drop_table, create_index, drop_index, add_column, drop_column,
  alter_column, string, text, timestamp, integer, big_integer, jsonb, literal, sql, primary,
  required, optional, defaulted,
}

-- `upgrade`
abbrev pub upgrade : List Operation
upgrade =
    add_column "provider_orders" (optional "provider_status" (string 100))
    ∷ add_column "provider_orders" (optional "last_provider_sync_at" timestamp)
    ∷ add_column "provider_orders" (optional "last_provider_payload" jsonb)
    ∷ add_column "esims" (optional "provider_esim_tran_no" (string 128))
    ∷ add_column "esims" (optional "imsi" (string 64))
    ∷ add_column "esims" (optional "qr_code_url" text)
    ∷ add_column "esims" (optional "short_url" text)
    ∷ add_column "esims" (optional "smdp_status" (string 50))
    ∷ add_column "esims" (optional "esim_status" (string 50))
    ∷ add_column "esims" (optional "pin" (string 32))
    ∷ add_column "esims" (optional "puk" (string 32))
    ∷ add_column "esims" (optional "apn" (string 128))
    ∷ add_column "esims" (optional "total_volume" big_integer)
    ∷ add_column "esims" (optional "total_duration" integer)
    ∷ add_column "esims" (optional "duration_unit" (string 20))
    ∷ add_column "esims" (optional "order_usage" big_integer)
    ∷ add_column "esims" (optional "activate_time" timestamp)
    ∷ add_column "esims" (optional "installation_time" timestamp)
    ∷ add_column "esims" (optional "expired_time" timestamp)
    ∷ add_column "esims" (optional "support_topup_type" integer)
    ∷ add_column "esims" (optional "fup_policy" (string 255))
    ∷ add_column "esims" (optional "raw_provider_payload" jsonb)
    ∷ add_column "provider_webhook_events" (optional "provider_event_id" (string 128))
    ∷ add_column "provider_webhook_events" (defaulted "received_at" timestamp (sql "now()"))
    ∷ add_column "provider_webhook_events" (optional "processed_at" timestamp)
    ∷ add_column "provider_webhook_events"
        (defaulted "processing_status" (string 50) (literal "pending"))
    ∷ create_index "ix_webhook_events_processing_status" "provider_webhook_events"
        ("processing_status" ∷ [])
    ∷ create_table "order_state_history" (
        primary "id" (string 64)
        ∷ required "order_id" (string 64)
        ∷ optional "old_status" (string 50)
        ∷ optional "new_status" (string 50)
        ∷ optional "old_provider_status" (string 100)
        ∷ optional "new_provider_status" (string 100)
        ∷ required "source" (string 50)
        ∷ optional "payload_json" jsonb
        ∷ defaulted "created_at" timestamp (sql "now()")
        ∷ defaulted "updated_at" timestamp (sql "now()")
        ∷ [])
    ∷ create_index "ix_order_state_history_order" "order_state_history" ("order_id" ∷ [])
    ∷ create_index "ix_order_state_history_source" "order_state_history" ("source" ∷ [])
    ∷ alter_column "provider_products" "location_code" (string 255) (string 10)
    ∷ []

-- `downgrade`
abbrev pub downgrade : List Operation
downgrade =
    alter_column "provider_products" "location_code" (string 10) (string 255)
    ∷ drop_index "ix_order_state_history_source" "order_state_history"
    ∷ drop_index "ix_order_state_history_order" "order_state_history"
    ∷ drop_table "order_state_history"
    ∷ drop_index "ix_webhook_events_processing_status" "provider_webhook_events"
    ∷ drop_column "provider_webhook_events" "processing_status"
    ∷ drop_column "provider_webhook_events" "processed_at"
    ∷ drop_column "provider_webhook_events" "received_at"
    ∷ drop_column "provider_webhook_events" "provider_event_id"
    ∷ drop_column "esims" "raw_provider_payload"
    ∷ drop_column "esims" "fup_policy"
    ∷ drop_column "esims" "support_topup_type"
    ∷ drop_column "esims" "expired_time"
    ∷ drop_column "esims" "installation_time"
    ∷ drop_column "esims" "activate_time"
    ∷ drop_column "esims" "order_usage"
    ∷ drop_column "esims" "duration_unit"
    ∷ drop_column "esims" "total_duration"
    ∷ drop_column "esims" "total_volume"
    ∷ drop_column "esims" "apn"
    ∷ drop_column "esims" "puk"
    ∷ drop_column "esims" "pin"
    ∷ drop_column "esims" "esim_status"
    ∷ drop_column "esims" "smdp_status"
    ∷ drop_column "esims" "short_url"
    ∷ drop_column "esims" "qr_code_url"
    ∷ drop_column "esims" "imsi"
    ∷ drop_column "esims" "provider_esim_tran_no"
    ∷ drop_column "provider_orders" "last_provider_payload"
    ∷ drop_column "provider_orders" "last_provider_sync_at"
    ∷ drop_column "provider_orders" "provider_status"
    ∷ []
