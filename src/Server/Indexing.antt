-- ===== src/Server/Indexing.antt =====
-- `IndexingCoordinator::process` of crates/server/src/indexing_coordinator.rs: the operations of one
-- worker on the job that it claimed, with what the writer runs for others between them. The embedding
-- of chunks is a parameter of the worker; `now` gives the time of each operation.
pub mod Model
pub mod Settled
pub mod Ended
pub mod Others
