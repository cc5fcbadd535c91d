-- ===== src/Broker/Ledger.antt =====
-- The authenticated ledger of privileged_broker/core.py: a file of JSON lines, chained by digests and
-- closed by a tip, that is read by `verify_chain` and extended by `append_chain`.
pub mod File
pub mod Chain
pub mod Append
pub mod Sound
pub mod Verified
pub mod Atomic
pub mod RoundTrip
pub mod Tests
