-- ===== src/Db/Repositories.antt =====
-- app/repositories
pub mod Orders
pub mod Esims
pub mod Webhooks
pub mod Products
