-- ===== src/Services.antt =====
-- app/services/order.py, esim.py and catalog.py.
pub mod Orders
pub mod OrderRows
pub mod Esims
pub mod Catalog
