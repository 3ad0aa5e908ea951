-- ===== src/Session.antt =====
-- Go Back N (UDP): a session from the handshake to the end of the transfer.
pub mod Begins
pub mod Delivers
pub mod Recovers
pub mod Completes
pub mod Lossless
pub mod Repeats
