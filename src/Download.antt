-- ===== src/Download.antt =====
-- download/: how a client gets a file back.
pub mod Sharded
pub mod Arrivals
pub mod Storing
pub mod Recover
