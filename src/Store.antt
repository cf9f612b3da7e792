-- ===== src/Store.antt =====
-- `normfs-store/src`: the files of finished queues' parts.
pub mod File
pub mod Ranges
pub mod Worker
pub mod Header
pub mod Authentication
