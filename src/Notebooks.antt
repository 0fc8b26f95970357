-- ===== src/Notebooks.antt =====
-- The notebooks: what they look up in the parsed logs, and the figures that they plot and store.
pub mod Rows
pub mod Rocksdb
pub mod Aerospike
pub mod Cachelib
pub mod Multicore
pub mod Plot
pub mod Heatmap
pub mod Compared
mod Tests
