-- ===== src/Server.antt =====
-- crates/server: authentication of requests, and the coordinators over the storage writer.
pub mod Auth
pub mod Retry
pub mod Indexing
pub mod Search
pub mod Filters
