-- ===== src/Common.antt =====
-- The package common.
pub mod Bytes
pub mod Numbers
pub mod Hash
pub mod Lines
pub mod Names
pub mod Profiles
pub mod Splitting
pub mod ArchonUrl
