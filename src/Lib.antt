-- ===== src/Lib.antt =====
-- A model of the eSIM gateway: a service that orders eSIMs from a provider for internal clients and
-- keeps their state.
--
-- A request passes the check of the caller's scopes (app/core/auth.py), is guarded by an idempotency
-- key if it places, tops up or cancels an order (app/api/v1/orders.py, app/core/idempotency.py), and
-- reaches a service (app/services), which calls the provider through its adapter
-- (app/providers/esim_access) and writes rows through the repositories (app/repositories). Webhooks
-- of the provider (app/services/webhook.py), the reconciliation job (app/tasks/reconciliation.py) and
-- the order service all end in the merge of the provider's answer into the stored order and its eSIMs
-- (app/services/state_sync.py).
--
-- The files:
--   Prelude, Python     shared names, lists and integers; texts, JSON values, `str` and `int`
--   Errors, Exec        app/core/errors.py and app/api/error_handlers.py; state and exceptions
--   Models, Db          app/models, app/repositories and the session of app/core/database.py
--   Migrations          alembic/versions: Initial is 001, StateSync 002
--   Providers           app/providers/base.py, and EsimAccess for app/providers/esim_access: Auth is
--                       auth.py, Client is client.py, Normalize, Answers and Adapter are
--                       adapter.py
--   Sync                app/services/state_sync.py: Fields has the helpers, Merge
--                       `_merge_esim_record`, Order `sync_order`
--   Webhook             app/services/webhook.py: Handlers has the `_handle_…` methods, Process
--                       `process_webhook`
--   Services            app/services/order.py (Orders, with the rows in OrderRows), esim.py and
--                       catalog.py
--   Redis, Idempotency  the commands of Redis that are used, and app/core/idempotency.py; Interleaved
--                       has its commands as steps of several requests, Trace what is seen of
--                       them, Cell what a key promises
--   Schemas             app/schemas: what the endpoints answer
--   Api                 the endpoints of app/api/v1: Guarded and Orders the mutations of orders,
--                       OrderReads, Catalog, Esims, Admin (with the webhook) and Health the others
--   App                 app/main.py: Routes and Endpoints are its routers, Serve the check of the
--                       caller, the error handlers and app/core/middleware.py, Startup the check of
--                       the configuration, Wiring the provider that app/api/deps.py builds
--   Auth, Logging       app/core/auth.py; the redaction of secrets in app/core/logging.py
--   Reconciliation      app/tasks/reconciliation.py: Job has the two tasks, Scheduler the loop
--   Tests               sample data and runs
-- Functions have the names of the source, without a leading underscore. The branches of a long method
-- are functions of their own, which a comment names.
--
-- The state is `World`: the tables as lists of rows, in the order of their insertion, and how far the
-- streams of identifiers, clock readings and provider exchanges have been read. Code that mutates it
-- and may raise is a function `Exec`: the state comes back beside an exception too, since what was
-- written before a `raise` stays written until the session is rolled back. A row that a service
-- mutates is found by its key, as the session's identity map does. The retries have a bound of their
-- own, three attempts; the scheduler's endless loop is a number of its rounds; every other loop goes
-- over a list.
--
-- Parameters, of which nothing is assumed: the runtime (`repr`, `datetime.fromisoformat`,
-- identifiers, the clock), the HTTP transport with its keyed hash, the JSON texts of the responses,
-- the hash of the fingerprints, the database's order of texts, and the provider, for the theorems
-- on the services. Redis is a parameter with the documented behaviour of its commands as laws;
-- Redis/Memory shows that they can hold. So is the database that is migrated, with
-- Migrations/Instance.
--
-- Not modelled: JSON numbers with a fraction; the case of letters outside ASCII; `updated_at`,
-- durations, waits and the logging of requests; collisions of keys, lengths of columns and overflow
-- at a flush. A price is in ten-thousandths and remaining data in bytes. A field of the provider
-- that is stored in a text column, or is used as a dict, raises at once where it is something else;
-- the source raises at the next flush or use. Pools, the construction of services and shutdown are
-- left out.
pub mod Prelude
pub mod Python
pub mod Errors
pub mod Models
pub mod Migrations
pub mod Schemas
pub mod Exec
pub mod Providers
pub mod Db
pub mod Sync
pub mod Webhook
pub mod Services
pub mod Redis
pub mod Idempotency
pub mod Api
pub mod App
pub mod Logging
pub mod Auth
pub mod Reconciliation
pub mod Tests
