-- ===== src/Nic.antt =====
-- The controller commands of sfc7120_mcdi.c and the bring-up and teardown of sfc7120.c that are
-- built from them.
pub mod State
pub mod Attach
pub mod Queue
pub mod Port
pub mod Link
pub mod Filter
pub mod Bringup
pub mod Kept
pub mod Ready
pub mod Handle
pub mod Guard
pub mod Down
pub mod Leaks
pub mod Samples
mod Tests
