-- ===== src/Package.antt =====
-- privileged_broker/package_v2.py: a package sealed by a manifest of digests, its verification, its
-- build and the rehearsal of its installation.
pub mod Manifest
pub mod Verify
pub mod Sealed
pub mod Addressed
pub mod Build
pub mod Written
pub mod Built
pub mod Failed
pub mod Rehearse
pub mod Staged
pub mod Listed
pub mod Rehearsed
pub mod Published
pub mod Tests
