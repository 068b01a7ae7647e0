-- ===== src/Lib.antt =====
-- supermemory-rs keeps documents and memories in one SQLite database, splits each document into
-- chunks, has a model turn the chunks into vectors, and lets a provider extract memories. This
-- library models the parts that decide what is stored, in which order work is done and what is
-- split, and proves what they keep.
--
-- How the parts work together: a client's upsert stores a document and queues a job
-- (crates/storage/src/documents.rs, lib.rs). A worker claims the oldest job, moves it from stage to
-- stage, and ends it by publishing chunks, by failing it or by deleting an empty document
-- (document_jobs.rs); a publication may queue a memory job, which another worker claims, caches,
-- completes or retries (memory_jobs.rs). Every operation runs whole on the one writer task of
-- crates/server/src/writer.rs, in an order that nobody fixes, so that between two operations of a
-- worker the writer may run operations of others. Opening the database queues the
-- interrupted work again (`initialize` of lib.rs). What a provider extracted is reconciled with the
-- memories already stored (memories.rs), which a profile then shows. A search fuses the ranked lists
-- that the database answers, keeps what is diverse and fits it into a budget
-- (crates/server/src/search_engine.rs, search_projection.rs). Documents and searches share one
-- executor of embeddings, whose loop serves queries before documents
-- (crates/memory-engine/src/embedding_executor.rs).
--
-- Which file models what:
--   Storage/State        the states of documents and jobs, of crates/storage/src/lib.rs
--   Storage/Tables       the rows of documents, jobs, document_chunks and chunk_embeddings, and the
--                        errors; the partial unique index on active jobs is `job_conflicts`
--   Storage/Sql, Rows    UPDATE, DELETE and SELECT as functions on the list of rows, in rowid order,
--                        and the conditions that the statements share
--   Storage/DocumentJobs `claim_job`, `mark_job_stage`, `fail_job`, `delete_empty_document`
--   Storage/Publish      `publish_job` and the three operations that complete a job with it
--   Storage/MemoryJobs   crates/storage/src/memory_jobs.rs
--   Storage/Upsert       `upsert_document_for` and what it calls in lib.rs
--   Storage/Documents    finding, listing and deleting documents, of documents.rs
--   Storage/Filters      the metadata filters of lib.rs, and Server/Filters their parsing, of
--                        crates/server/src/lib.rs
--   Storage/Recovery     the statements of `initialize` that recover interrupted work
--   Storage/Memories     the tables of migrations/0004 with the helpers of lib.rs (Store), the
--                        proposals' parents (Resolve), `reconcile_memories_for` and
--                        `forget_memory_for` (Reconcile) and the profiles (Profiles), all of
--                        crates/storage/src/memories.rs; `normalized_memory` and
--                        `deduplicate_memories` of lib.rs (Dedup); the other files prove what
--                        these keep of versions, sources and latest memories
--   Storage/Invariant    the invariant of documents and jobs, and the lemmas that keep it
--   Storage/Protocol     the database and the tables of memories with the claims of the workers, as
--                        a relation of steps
--   MemoryEngine/Executor the scheduling loop, its requests and replies, and `microbatch_lengths`,
--                        of crates/memory-engine/src/embedding_executor.rs
--   MemoryEngine/Chunking crates/memory-engine/src/chunking.rs
--   Server/Auth          crates/server/src/auth.rs
--   Server/Indexing      `process` of crates/server/src/indexing_coordinator.rs
--   Server/Retry         `retry_delay` of crates/server/src/memory_extraction_coordinator.rs
--   Server/Search        fusion and selection of crates/server/src/search_engine.rs, and the
--                        projection and the budget of crates/server/src/search_projection.rs
--   Tests                the theorems and the definitions at concrete inputs
--
-- Conventions: a transaction is a function from the database to a result and the database after it;
-- one that returns an error before its commit gives the database that it was given. Time is a number
-- of seconds, given to each operation. Generated identifiers are arguments, and where it matters a
-- step asks that they name no row yet. Revisions, attempts and ordinals are natural numbers. Text is
-- a list of code points. A hash map is a list of pairs of a key and a value, searched from its
-- front. The tables of memories stand beside those of documents and jobs, in `Store`. JSON values,
-- SHA-1, SHA-256, floats, the date functions of SQLite and the tables of Unicode are parameters, and
-- so are the tokenizer and the model that embeds. In the executor the two channels are lists of what
-- was sent and not yet received; a turn of the loop runs whole, and a request that arrives during one
-- counts as sent before it or after it.
-- What the writer runs for others between the operations of an indexing pass is a parameter, which is
-- assumed to keep the database valid and the job's row at its stage unless its document moves on or is
-- deleted.
--
-- Bounds: `chunk_units` runs on fuel, of which `chunk_plain` gives two rounds: the second is on words
-- without white space, which are cut at fixed widths. `parse_filter_at` runs on the levels of nesting
-- that are left, nine at first: no level left is what the source tests as a depth over eight. All
-- other recursion is structural, or on a length that the definition takes from its own argument.
--
-- Not modelled: errors of SQLite itself, the schema and its migrations, connections, full-text search
-- and vector search with their triggers, the queries of crates/storage/src/search.rs, the hydration
-- of search results and their grouping for the older endpoint, the rows of memory_sources that a
-- deleted document takes with it, the tasks and channels of tokio and what happens when a task
-- panics, the writer's notifications, HTTP routes, the provider's requests, service health,
-- configuration, credentials and the import of older databases.
pub mod Prelude
pub mod MemoryEngine
pub mod Storage
pub mod Server
pub mod Tests
