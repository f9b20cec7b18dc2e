-- ===== src/Storage.antt =====
-- crates/contexide-storage-pg: the repositories that run in memory.
pub mod Workflows
pub mod Buckets
pub mod Indexed
pub mod Repos
