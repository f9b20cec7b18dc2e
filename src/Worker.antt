-- ===== src/Worker.antt =====
-- The worker processes: crates/contexide-worker-runtime/src and crates/contexide-workers/src.
pub mod Settings
pub mod Handlers
pub mod Runner
mod Samples
