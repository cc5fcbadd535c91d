-- ===== src/Broker.antt =====
-- privileged_broker/core.py: the broker of one fixed operation.
pub mod Config
pub mod Request
pub mod Authority
pub mod Ledger
pub mod Execute
pub mod Approve
pub mod Backend
