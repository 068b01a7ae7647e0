-- ===== src/Server/Indexing/Model.antt =====
-- The worker of `IndexingCoordinator` and its pass over one job. `others` is what the writer runs for
-- other clients and workers before each operation that this one awaits, by the operation's index.
use supermemory_rs.Prelude.{
  ℕ, Text, Bool, List, [], ◌∷◌, Option, none, some, Result, ok, err, if◌then◌else◌,
}
use supermemory_rs.MemoryEngine.Chunking.Markdown.{ChunkingError, chunk_text}
use supermemory_rs.Storage.State.{chunking, embedding, indexing}
use supermemory_rs.Storage.Tables.{ClaimedJob, Db, StorageError}
use supermemory_rs.Storage.DocumentJobs.{mark_job_stage, fail_job, delete_empty_document}
use supermemory_rs.Storage.Publish.{
  Float32, EmbeddedChunk, complete_job, complete_embedded_job,
  complete_embedded_job_with_memory_extraction,
}

-- The errors of a pass. `executor` stands for a chunking that did not end.
pub data WorkerError (E : Type 0) : Type 0 where
  storage : StorageError → WorkerError E
  chunking_failed : ChunkingError → WorkerError E
  embedding_executor : E → WorkerError E
  executor : WorkerError E

-- BGE_DIMENSIONS
abbrev pub dimensions : ℕ
dimensions = 768

-- The coordinator: its embedding executor if there is one, and whether it has a provider. Errors are
-- shown by `to_string`.
pub record Coordinator (F : Type 0) (E : Type 0) : Type 0 where
  pub embeddings : Option (List Text → Result E (List (EmbeddedChunk F)))
  pub has_provider : Bool
  pub model_id : Text
  pub embedding_text : E → Text
  pub chunking_text : ChunkingError → Text

abbrev pub Outcome : Type 0 → Type 0 → Type 0
Outcome V E = Result (WorkerError E) (Unit {0}) × Db V

module _ {V E : Type 0} where
  -- `operation.await?`, and then the rest.
  unfoldable pub and_then :
      Result StorageError (Unit {0}) × Db V → (Db V → Outcome V E) → Outcome V E
  and_then (ok u, db) rest = rest db
  and_then (err e, db) rest = (err (storage e), db)

  module _ (f : Float32) (now : ℕ → ℕ) (chunk_ids : ℕ → Text) (job_id : Text)
      (coordinator : Coordinator f.F E) (job : ClaimedJob) (others : ℕ → Db V → Db V) where
    -- self.fail(…).await? and the error.
    unfoldable pub failing : ℕ → Text → WorkerError E → Db V → Outcome V E
    unfolding and_then fail_job
    failing index message error db =
        and_then (fail_job (now index) job message (others index db)) (λ db'. (err error, db'))

    unfoldable pub publish : List (EmbeddedChunk f.F) → Db V → Result StorageError (Unit {0}) × Db V
    unfolding complete_embedded_job complete_embedded_job_with_memory_extraction
    publish vectors db =
        if coordinator.has_provider
        then complete_embedded_job_with_memory_extraction f (now 3) chunk_ids job_id job vectors
            coordinator.model_id dimensions (others 3 db)
        else complete_embedded_job f (now 3) chunk_ids job_id job vectors coordinator.model_id
            dimensions (others 3 db)

    -- With the job at the stage of embedding, and what the executor gave.
    unfoldable pub embedded : Result E (List (EmbeddedChunk f.F)) → Db V → Outcome V E
    unfolding failing and_then publish mark_job_stage
    embedded (err e) db = failing 2 (coordinator.embedding_text e) (embedding_executor e) db
    embedded (ok vectors) db =
        and_then (mark_job_stage (now 2) job indexing (others 2 db))
          (λ db'. and_then (publish vectors db') (λ done. (ok tt, done)))

    -- With the job at the stage of chunking, and chunks.
    unfoldable pub index_chunks :
        Option (List Text → Result E (List (EmbeddedChunk f.F))) → List Text → Db V → Outcome V E
    unfolding and_then embedded complete_job mark_job_stage
    index_chunks none chunks db =
        and_then (complete_job f (now 1) chunk_ids job_id job chunks (others 1 db))
          (λ done. (ok tt, done))
    index_chunks (some embed) chunks db =
        and_then (mark_job_stage (now 1) job embedding (others 1 db))
          (λ db'. embedded (embed chunks) db')

    -- With the job at the stage of chunking.
    unfoldable pub chunked : Result ChunkingError (Option (List Text)) → Db V → Outcome V E
    unfolding failing and_then index_chunks delete_empty_document
    chunked (err e) db = failing 1 (coordinator.chunking_text e) (chunking_failed e) db
    chunked (ok none) db = (err executor, db)
    chunked (ok (some [])) db =
        and_then (delete_empty_document job (others 1 db)) (λ done. (ok tt, done))
    chunked (ok (some (c ∷ cs))) db = index_chunks coordinator.embeddings (c ∷ cs) db

    unfoldable pub process : Db V → Outcome V E
    unfolding and_then chunked chunk_text mark_job_stage
    process db =
        and_then (mark_job_stage (now 0) job chunking (others 0 db))
          (λ db'. chunked (chunk_text job.content none) db')
