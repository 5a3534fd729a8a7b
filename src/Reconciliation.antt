-- ===== src/Reconciliation.antt =====
-- app/tasks/reconciliation.py: the two background tasks and their distributed locks.
pub mod Progress
pub mod Lock
pub mod Overrun
pub mod Scheduler
pub mod Rounds
pub mod Job
