-- ===== src/Providers.antt =====
-- app/providers
pub mod Base
pub mod Defaults
pub mod EsimAccess
