-- ===== src/Data.antt =====
-- The data path: the kernel's first posting of receive buffers (sfc7120.c), and the direct path of
-- the user library (userlib/sfc7120_user.c) that posts a packet or takes one.
pub mod Descriptor
pub mod Path
pub mod Packet
pub mod Post
pub mod Slices
mod Tests
