-- ===== src/Rocksdb.antt =====
-- The RocksDB benchmark: the runs and where their logs go, and the parser that collects them.
pub mod Batch
pub mod Parser
mod Tests
