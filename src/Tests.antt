-- ===== src/Tests.antt =====
-- Concrete runs: sample data, and the theorems applied to it.
pub mod Sample
pub mod SyncRuns
pub mod WebhookRuns
pub mod ServiceRuns
pub mod GatewayRuns
pub mod JobRuns
pub mod Interleavings
pub mod AppRuns
pub mod CatalogRuns
pub mod MigrationRuns
