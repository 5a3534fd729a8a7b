-- ===== src/Sync.antt =====
-- app/services/state_sync.py: `ProviderStateSyncer`, which merges what the provider reports into the
-- orders and eSIMs.
pub mod Fields
pub mod Merge
pub mod Order
pub mod Frame
pub mod Terminal
pub mod History
pub mod Columns
pub mod TextColumns
pub mod Heard
pub mod Repeat
pub mod Outside
