-- ===== src/Broker/Request.antt =====
-- privileged_broker/core.py: the fixed operation, `make_request` and `validate_request`.
mod Sealed
mod Build
mod Validate
pub mod Stages
pub mod Accepts
pub mod Accepted
pub mod Lifetime
pub mod Tests
unfoldable pub use Sealed.*
unfoldable pub use Build.*
unfoldable pub use Validate.*
