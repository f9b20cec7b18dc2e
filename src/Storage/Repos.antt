-- ===== src/Storage/Repos.antt =====
-- The in-memory repositories of crates/contexide-storage-pg/src, but for those of workflows.
pub mod Chunks
pub mod Blocks
pub mod Assets
pub mod ChunkSets
pub mod EmbeddingSets
pub mod EmbeddingRefs
pub mod Documents
pub mod Jobs
pub mod Tenants
pub mod Listing
mod Samples
