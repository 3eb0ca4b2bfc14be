-- ===== src/Wal.antt =====
-- crates/wal: the write-ahead log.
pub mod Record
pub mod Reader
pub mod Writer
pub mod Snapshot
mod Examples
