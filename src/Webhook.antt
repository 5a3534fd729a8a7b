-- ===== src/Webhook.antt =====
-- app/services/webhook.py: `WebhookService`.
pub mod Handlers
pub mod Process
pub mod Events
pub mod Outcomes
pub mod Frame
pub mod Status
