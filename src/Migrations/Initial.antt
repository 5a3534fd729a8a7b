-- ===== src/Migrations/Initial.antt =====
-- alembic/versions/001_initial_schema.py.
use seemsim_esim_gateway.Prelude.{List, [], ◌∷◌}
use seemsim_esim_gateway.Migrations.Operations.{
  Operation, create_table, drop_table, create_index, string, text, boolean, timestamp, integer,
  numeric, jsonb, literal, sql, primary, required, optional, unique, defaulted,
}

-- `upgrade`
abbrev pub upgrade : List Operation
upgrade =
    create_table "provider_products" (
      primary "id" (string 64)
      ∷ defaulted "provider_name" (string 50) (literal "esim_access")
      ∷ required "name" (string 255)
      ∷ optional "description" text
      ∷ optional "location_code" (string 10)
      ∷ defaulted "is_active" boolean (sql "true")
      ∷ defaulted "created_at" timestamp (sql "now()")
      ∷ defaulted "updated_at" timestamp (sql "now()")
      ∷ [])
    ∷ create_index "ix_provider_products_provider" "provider_products" ("provider_name" ∷ [])
    ∷ create_index "ix_provider_products_location" "provider_products" ("location_code" ∷ [])
    ∷ create_table "provider_packages" (
        primary "id" (string 128)
        ∷ required "product_id" (string 64)
        ∷ defaulted "provider_name" (string 50) (literal "esim_access")
        ∷ unique "package_code" (string 128)
        ∷ required "name" (string 255)
        ∷ defaulted "type" (string 50) (literal "BASE")
        ∷ optional "data_volume_mb" integer
        ∷ optional "duration_days" integer
        ∷ required "price" (numeric 12 4)
        ∷ defaulted "currency" (string 10) (literal "USD")
        ∷ optional "countries" jsonb
        ∷ defaulted "is_active" boolean (sql "true")
        ∷ optional "raw_provider_data" jsonb
        ∷ defaulted "created_at" timestamp (sql "now()")
        ∷ defaulted "updated_at" timestamp (sql "now()")
        ∷ [])
    ∷ create_index "ix_provider_packages_product" "provider_packages" ("product_id" ∷ [])
    ∷ create_index "ix_provider_packages_code" "provider_packages" ("package_code" ∷ [])
    ∷ create_index "ix_provider_packages_type" "provider_packages" ("type" ∷ [])
    ∷ create_table "provider_orders" (
        primary "id" (string 64)
        ∷ defaulted "provider_name" (string 50) (literal "esim_access")
        ∷ optional "provider_order_no" (string 128)
        ∷ unique "transaction_id" (string 128)
        ∷ required "package_code" (string 128)
        ∷ defaulted "quantity" integer (sql "1")
        ∷ defaulted "status" (string 50) (literal "pending")
        ∷ optional "iccid" (string 64)
        ∷ optional "failure_reason" text
        ∷ optional "idempotency_key" (string 255)
        ∷ optional "raw_provider_request" jsonb
        ∷ optional "raw_provider_response" jsonb
        ∷ defaulted "created_at" timestamp (sql "now()")
        ∷ defaulted "updated_at" timestamp (sql "now()")
        ∷ [])
    ∷ create_index "ix_provider_orders_provider_order" "provider_orders" ("provider_order_no" ∷ [])
    ∷ create_index "ix_provider_orders_transaction" "provider_orders" ("transaction_id" ∷ [])
    ∷ create_index "ix_provider_orders_status" "provider_orders" ("status" ∷ [])
    ∷ create_index "ix_provider_orders_iccid" "provider_orders" ("iccid" ∷ [])
    ∷ create_table "esims" (
        primary "id" (string 64)
        ∷ unique "iccid" (string 64)
        ∷ defaulted "provider_name" (string 50) (literal "esim_access")
        ∷ required "order_id" (string 64)
        ∷ optional "smdp_address" (string 512)
        ∷ optional "matching_id" (string 512)
        ∷ optional "activation_code" text
        ∷ defaulted "status" (string 50) (literal "allocated")
        ∷ optional "msisdn" (string 32)
        ∷ optional "raw_provider_data" jsonb
        ∷ defaulted "created_at" timestamp (sql "now()")
        ∷ defaulted "updated_at" timestamp (sql "now()")
        ∷ [])
    ∷ create_index "ix_esims_iccid" "esims" ("iccid" ∷ [])
    ∷ create_index "ix_esims_order" "esims" ("order_id" ∷ [])
    ∷ create_index "ix_esims_status" "esims" ("status" ∷ [])
    ∷ create_table "esim_status_history" (
        primary "id" (string 64)
        ∷ required "esim_id" (string 64)
        ∷ required "iccid" (string 64)
        ∷ optional "previous_status" (string 50)
        ∷ required "new_status" (string 50)
        ∷ defaulted "source" (string 50) (literal "api")
        ∷ required "recorded_at" timestamp
        ∷ defaulted "created_at" timestamp (sql "now()")
        ∷ defaulted "updated_at" timestamp (sql "now()")
        ∷ [])
    ∷ create_index "ix_esim_status_history_esim" "esim_status_history" ("esim_id" ∷ [])
    ∷ create_index "ix_esim_status_history_iccid" "esim_status_history" ("iccid" ∷ [])
    ∷ create_table "provider_webhook_events" (
        primary "id" (string 64)
        ∷ defaulted "provider_name" (string 50) (literal "esim_access")
        ∷ required "event_type" (string 100)
        ∷ optional "order_no" (string 128)
        ∷ optional "iccid" (string 64)
        ∷ optional "transaction_id" (string 128)
        ∷ required "payload" jsonb
        ∷ defaulted "processed" boolean (sql "false")
        ∷ optional "processing_error" text
        ∷ defaulted "created_at" timestamp (sql "now()")
        ∷ defaulted "updated_at" timestamp (sql "now()")
        ∷ [])
    ∷ create_index "ix_webhook_events_type" "provider_webhook_events" ("event_type" ∷ [])
    ∷ create_index "ix_webhook_events_order" "provider_webhook_events" ("order_no" ∷ [])
    ∷ create_index "ix_webhook_events_processed" "provider_webhook_events" ("processed" ∷ [])
    ∷ create_table "idempotency_records" (
        primary "id" (string 64)
        ∷ unique "idempotency_key" (string 255)
        ∷ required "request_fingerprint" (string 128)
        ∷ required "endpoint" (string 255)
        ∷ required "status" (string 50)
        ∷ optional "response_status_code" integer
        ∷ optional "response_body" text
        ∷ defaulted "created_at" timestamp (sql "now()")
        ∷ defaulted "updated_at" timestamp (sql "now()")
        ∷ [])
    ∷ create_index "ix_idempotency_key" "idempotency_records" ("idempotency_key" ∷ [])
    ∷ create_table "operation_logs" (
        primary "id" (string 64)
        ∷ required "operation" (string 100)
        ∷ defaulted "provider_name" (string 50) (literal "esim_access")
        ∷ optional "request_id" (string 128)
        ∷ optional "idempotency_key" (string 255)
        ∷ required "status" (string 50)
        ∷ optional "duration_ms" integer
        ∷ optional "request_payload" jsonb
        ∷ optional "response_payload" jsonb
        ∷ optional "error_message" text
        ∷ defaulted "created_at" timestamp (sql "now()")
        ∷ defaulted "updated_at" timestamp (sql "now()")
        ∷ [])
    ∷ create_index "ix_operation_logs_operation" "operation_logs" ("operation" ∷ [])
    ∷ create_index "ix_operation_logs_status" "operation_logs" ("status" ∷ [])
    ∷ create_index "ix_operation_logs_request_id" "operation_logs" ("request_id" ∷ [])
    ∷ []

-- `downgrade`
abbrev pub downgrade : List Operation
downgrade =
    drop_table "operation_logs"
    ∷ drop_table "idempotency_records"
    ∷ drop_table "provider_webhook_events"
    ∷ drop_table "esim_status_history"
    ∷ drop_table "esims"
    ∷ drop_table "provider_orders"
    ∷ drop_table "provider_packages"
    ∷ drop_table "provider_products"
    ∷ []
