-- ===== src/MemoryEngine/Executor.antt =====
-- crates/memory-engine/src/embedding_executor.rs: bounded microbatches over one model.
pub mod Microbatch
pub mod Partition
pub mod Scheduler
pub mod Batches
pub mod Order
pub mod Queues
pub mod Starvation
pub mod Replies
pub mod Submission
pub mod Pieces
