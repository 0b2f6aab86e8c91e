-- ===== src/User.antt =====
-- The session of the user library: what it opens, maps and allocates, and how it gives it back.
pub mod Session
pub mod Balance
pub mod Steps
pub mod Opened
pub mod Samples
mod Tests
