-- ===== src/Bootstrap.antt =====
-- privileged_broker/phase0_bootstrap.py: the ceremony that seals a package, installs the broker and
-- emits the request of the first phase.
pub mod Binding
pub mod Fence
pub mod Source
pub mod Run
pub mod Bound
pub mod Changes
pub mod Failed
pub mod Kept
pub mod Done
pub mod Again
pub mod Tests
