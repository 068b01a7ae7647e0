-- ===== src/Server/Search.antt =====
-- crates/server/src/search_engine.rs and crates/server/src/search_projection.rs: how the evidence
-- of several rankings becomes a bounded list of results.
pub mod Ranked
pub mod Sums
pub mod Fusion
pub mod Diversity
pub mod Projection
pub mod Budget
