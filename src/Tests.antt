-- ===== src/Tests.antt =====
-- Concrete instances of the parameters, and the theorems on concrete inputs.
pub mod Instances
pub mod Witnesses
pub mod Uploads
pub mod Stores
pub mod Parts
pub mod Urls
pub mod Provider
pub mod Downloads
pub mod Choices
pub mod Neo
pub mod Lines
