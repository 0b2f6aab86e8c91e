-- ===== src/Lifecycle.antt =====
-- What the driver acquires at attach and gives back at detach (sfc7120.c).
pub mod Dma
pub mod Allocated
pub mod Unwind
pub mod Resources
pub mod Interrupt
pub mod Vector
pub mod Regions
pub mod Device
pub mod Failing
pub mod Attached
pub mod Shared
mod Tests
