-- ===== src/Supervisor.antt =====
-- supervisor/gateway_restart_supervisor.py: the restart of one fixed service for a task.
pub mod State
pub mod Request
pub mod Authorize
pub mod Receipts
pub mod Handle
pub mod Classify
pub mod Allowed
pub mod Spent
pub mod Once
pub mod Valid
pub mod Ended
pub mod Tests
