-- ===== src/Upload.antt =====
-- The package upload/: how a client sends its shards to storage providers.
pub mod Sharded
pub mod Choosing
