-- ===== src/Tests.antt =====
-- A small platform, file, server and client, runs of the programs on them, and the theorems applied
-- to them.
mod World
mod Runs
mod Clients
mod Servers
mod Sessions
mod Transfers
mod Programs
mod Blocked
mod Losses
