-- ===== src/Storage.antt =====
-- crates/storage: documents, jobs and memories in one SQLite database.
pub mod State
pub mod Sql
pub mod Tables
pub mod Rows
pub mod DocumentJobs
pub mod Publish
pub mod MemoryJobs
pub mod Upsert
pub mod Memories
pub mod Filters
pub mod Documents
pub mod Recovery
pub mod Invariant
pub mod Protocol
