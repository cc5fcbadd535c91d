-- ===== src/Bench.antt =====
-- benchmarks/level0b/run.py: the manifest of the cases, the ledger oracle, and the check of a gateway restart receipt.
pub mod Oracle
pub mod Replays
pub mod Gateway
pub mod Complete
pub mod Manifest
pub mod Frozen
pub mod Tests
