-- ===== src/Storage/Protocol.antt =====
-- Workers over the database: what a claim means while other operations run.
pub mod Claim
pub mod Stages
pub mod Deletes
pub mod Publish
pub mod MemoryCases
pub mod Memories
pub mod Claims
pub mod Upsert
pub mod Completion
pub mod Step
pub mod Sound
pub mod Reach
pub mod Recovery
pub mod Without
pub mod Replace
