-- ===== src/BlockchainApi.antt =====
-- The package blockchainAPI/: what is written to the block chains and read back.
pub mod Neo
