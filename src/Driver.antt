-- ===== src/Driver.antt =====
-- The kernel driver, sfc7120.c: its ioctls with the kernel's own transmit and receive path.
pub mod Channel
pub mod Wait
pub mod Ioctl
pub mod Await
pub mod Answer
pub mod Within
pub mod Safe
pub mod Complete
pub mod Receive
pub mod Mapped
pub mod Direct
pub mod Handoff
pub mod Samples
mod Tests
