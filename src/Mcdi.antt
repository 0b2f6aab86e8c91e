-- ===== src/Mcdi.antt =====
-- The MCDI transport (sfc7120_mcdi.c): the mailbox, the request and response framing, the
-- synchronous exchange with the management controller, and the commands built on it.
pub mod Mailbox
pub mod Copy
pub mod Wire
pub mod Framing
pub mod Send
pub mod Poll
pub mod Exec
pub mod Exchange
pub mod Deliver
pub mod Responder
mod Tests
