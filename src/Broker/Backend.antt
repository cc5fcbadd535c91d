-- ===== src/Broker/Backend.antt =====
-- `OllamaBackend` of privileged_broker/core.py: what `execute` asks of the machine.
pub mod Captured
pub mod Unique
pub mod Machine
pub mod Checks
pub mod Operations
pub mod Spares
pub mod Removed
pub mod Does
pub mod Restored
pub mod Partial
pub mod Tests
