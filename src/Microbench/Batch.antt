-- ===== src/Microbench/Batch.antt =====
-- microbench/batch.py: the parameter file that a batch is started with, and the runs that are read
-- from its log.
pub mod Params
pub mod Output
pub mod Runs
pub mod Script
mod Tests
