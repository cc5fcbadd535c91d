-- ===== src/Broker/Execute.antt =====
-- `execute` of privileged_broker/core.py.
pub mod World
pub mod Approval
pub mod Steps
pub mod Run
pub mod Keeps
pub mod Order
pub mod Quiet
pub mod Yields
pub mod Guard
pub mod Endings
pub mod Settle
pub mod Failures
pub mod Honest
pub mod Spent
pub mod Closed
pub mod Stable
pub mod Ensured
pub mod Covered
pub mod Once
pub mod Tests
