-- ===== src/Microbench.antt =====
-- The microbenchmark: microbench/batch.py and notebooks/utils/microbench_parser.py.
pub mod Batch
pub mod Main
pub mod Chain
pub mod Parser
mod Tests
