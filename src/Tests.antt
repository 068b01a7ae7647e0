-- ===== src/Tests.antt =====
-- Runs at concrete inputs: the hypotheses of the theorems can hold.
mod Storage
mod Protocol
mod Executor
mod Chunking
mod Server
mod Indexing
mod Publish
mod Memories
mod Search
mod Scheduler
mod Filters
