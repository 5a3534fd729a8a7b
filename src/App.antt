-- ===== src/App.antt =====
-- app/main.py: the application. A request is routed to its endpoint after the check of the caller, and
-- is answered with the rendered result or exception.
pub mod Routes
pub mod Endpoints
pub mod Serve
pub mod Access
pub mod Unchanged
pub mod Reads
pub mod Repeat
pub mod Startup
pub mod Wiring
