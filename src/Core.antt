-- ===== src/Core.antt =====
-- Shared types and keys of crates/contexide-core/src.
pub mod Idempo
pub mod Types
pub mod Entities
mod Samples
