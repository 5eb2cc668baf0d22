-- ===== src/StorageProvider.antt =====
-- The package storageProvider/: what a storage provider does with uploads.
pub mod Files
pub mod Paths
pub mod Pending
pub mod UploadHandler
pub mod Download
pub mod System
