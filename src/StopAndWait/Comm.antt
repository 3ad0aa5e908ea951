-- ===== src/StopAndWait/Comm.antt =====
-- Stop and Wait (TCP)/server.c, `client_comm` and `file_to_packet`: the session with one client.
mod State
mod Iteration
mod Loop
pub mod Piece
pub mod Retries
pub mod Resend
pub mod Ack
pub mod Idle
pub mod Ends
pub mod Livelock
pub mod Overwritten
pub mod Flags
unfoldable pub use State.*
unfoldable pub use Iteration.*
unfoldable pub use Loop.*
