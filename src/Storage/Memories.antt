-- ===== src/Storage/Memories.antt =====
-- Memories: crates/storage/src/memories.rs, with what it and memory_jobs.rs ask of lib.rs.
pub mod Dedup
pub mod Kept
pub mod Store
pub mod Resolve
pub mod Reconcile
pub mod Profiles
pub mod Lineage
pub mod Growth
pub mod Insertion
pub mod Known
pub mod Rounds
pub mod Reconciled
pub mod Forgotten
pub mod Current
pub mod Shown
pub mod Extraction
pub mod Context
pub mod History
pub mod Hidden
