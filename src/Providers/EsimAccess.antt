-- ===== src/Providers/EsimAccess.antt =====
-- app/providers/esim_access
pub mod Auth
pub mod Client
pub mod Normalize
pub mod Answers
pub mod Adapter
