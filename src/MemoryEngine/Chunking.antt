-- ===== src/MemoryEngine/Chunking.antt =====
-- crates/memory-engine/src/chunking.rs: text is normalized and split into chunks.
pub mod Markdown
pub mod Plain
pub mod Lengths
pub mod Words
pub mod Bounds
pub mod Sections
pub mod Limit
