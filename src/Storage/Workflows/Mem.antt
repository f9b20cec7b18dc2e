-- ===== src/Storage/Workflows/Mem.antt =====
-- crates/contexide-storage-pg/src/workflows/mem.rs: the three repositories over a hash map, with the
-- methods that crates/contexide-workflow-executor/src/storage.rs adds to them. Each method holds the
-- mutex of its map from start to end, so it is one step; none of them fails.
pub mod DagRuns
pub mod Tasks
pub mod TaskRuns
