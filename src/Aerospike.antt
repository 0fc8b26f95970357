-- ===== src/Aerospike.antt =====
-- The Aerospike side: notebooks/utils/aerospike_parser.py and notebooks/utils/aerospike_analyzer.py.
pub mod Parser
pub mod Analyzer
mod Tests
