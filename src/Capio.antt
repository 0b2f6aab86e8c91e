-- ===== src/Capio.antt =====
-- The CAPIO framework (capio.c, capio.h): the capability token that gates a device, the table of
-- shared memory regions, the mmap and page-fault paths and the ioctl dispatcher.
pub mod Types
pub mod Act
pub mod Token
pub mod Region
pub mod Revoke
pub mod Pager
pub mod Mmap
pub mod Ioctl
pub mod Teardown
pub mod Session
pub mod Mapping
pub mod Exclusive
pub mod Reach
pub mod Samples
mod Tests
