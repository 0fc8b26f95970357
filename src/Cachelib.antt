-- ===== src/Cachelib.antt =====
-- The CacheLib benchmark: the parser of its logs, and what is computed from them.
pub mod Parser
pub mod Analyzer
mod Tests
