-- ===== src/Storage.antt =====
-- internal/storage: the crash-safe key-value store.
pub mod Record
pub mod Wal
pub mod Store
mod Tests
