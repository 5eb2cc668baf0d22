-- ===== src/Shards.antt =====
-- The package shards.
pub mod Types
pub mod Erasure
pub mod Sizes
pub mod MxorHeader
pub mod BorsHeader
pub mod AorsHeader
pub mod Header
pub mod Shard
pub mod FileContainer
pub mod Mxor
pub mod Container
