-- ===== src/Migrations.antt =====
-- alembic/versions: the migrations of the database's schema.
pub mod Operations
pub mod Initial
pub mod StateSync
pub mod Reversal
pub mod Tables
pub mod Instance
