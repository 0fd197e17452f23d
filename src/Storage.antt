-- ===== src/Storage.antt =====
-- `storage/`
pub mod Info
pub mod Filesystem
pub mod Device
