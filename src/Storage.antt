-- ===== src/Storage.antt =====
-- The crate `oj_storage` (crates/storage): the write-ahead log and the state that it replays to.
pub mod State
pub mod Wal
