-- ===== src/MemoryEngine.antt =====
-- crates/memory-engine: chunking, embedding and the extraction provider.
pub mod Executor
pub mod Chunking
