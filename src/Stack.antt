-- ===== src/Stack.antt =====
-- The parts together: the user library's calls, the framework's ioctl handler, and the driver below
-- it; and the device node.
pub mod System
pub mod Serve
pub mod Run
pub mod Packets
pub mod Node
pub mod Wake
pub mod Close
pub mod Leave
mod Tests
