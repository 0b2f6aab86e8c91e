-- ===== src/Event.antt =====
-- The event queues: the interrupt handler of the control queue (sfc7120.c) and the poll of the
-- data queue in the user library (userlib/sfc7120_user.c).
pub mod Ring
pub mod Drain
pub mod Interrupt
pub mod Poll
mod Tests
