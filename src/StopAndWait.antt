-- ===== src/StopAndWait.antt =====
-- Stop and Wait (TCP): the server of the first version of the program.
pub mod Socket
pub mod Connect
pub mod Comm
pub mod Rcopy
pub mod Main
