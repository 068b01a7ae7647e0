-- ===== src/Storage/Publish.antt =====
-- crates/storage/src/document_jobs.rs: validating vectors and publishing the chunks of a job.
-- `chunk_ids` and `job_id` are what `generate_id` returns, by the chunk's ordinal and for the
-- memory job.
use mathlib.Core.List.{flat_map}
use supermemory_rs.Prelude.{
  ℕ, ◌+◌, Text, text_eq, Bool, true, false, ◌&&◌, ◌||◌, List, [], ◌∷◌, ◌++◌, Option, none, some,
  Result, ok, err, ◌==◌, if◌then◌else◌, length, map,
}
use supermemory_rs.Storage.State.{indexing, done}
use supermemory_rs.Storage.Sql.{update_where, delete_where, first_where, exists_where}
use supermemory_rs.Storage.Tables.{
  memory, Job, Chunk, ChunkEmbedding, Db, StorageError, constraint, invalid_vector_dimensions,
  invalid_vector_length, non_finite_vector, invalid_vector_norm, stale_revision, ClaimedJob,
  is_processing, revision_of, next_chunk_id,
}
use supermemory_rs.Storage.Rows.{
  insert_job, new_job, set_document_status, job_is, delete_chunks, revision_is,
}

-- The binary floats that vectors hold, which antt has not: `norm` is the square root of the sum
-- of the squares, and `is_unit` tests that it differs from 1 by at most 1e-4.
pub record Float32 : Type 1 where
  pub F : Type 0
  pub is_finite : F → Bool
  pub norm : List F → F
  pub is_unit : F → Bool
  pub to_le_bytes : F → List ℕ

unfoldable pub all_of {ℓ} : {A : Type ℓ} → (A → Bool) → List A → Bool
all_of p [] = true
all_of p (x ∷ xs) = p x && all_of p xs

unfoldable pub validate_vector : (f : Float32) → List f.F → ℕ → Option StorageError
unfolding all_of
validate_vector f vector dimensions =
    if length vector == dimensions
    then if all_of f.is_finite vector
      then if f.is_unit (f.norm vector) then none else some invalid_vector_norm
      else some non_finite_vector
    else some (invalid_vector_length dimensions (length vector))

pub record EmbeddedChunk (F : Type 0) : Type 0 where
  pub content : Text
  pub vector : List F

-- The map from (ordinal, content) to the stable id of the published chunks.
abbrev pub StableIds : Type 0
StableIds = List ((ℕ × Text) × Text)

unfoldable pub is_key : ℕ → Text → (ℕ × Text) × Text → Bool
is_key ordinal content ((o, c), _) = (o == ordinal) && text_eq c content

unfoldable pub insert_id : ℕ → Text → Text → StableIds → StableIds
unfolding is_key
insert_id ordinal content stable_id existing =
    ((ordinal, content), stable_id) ∷ delete_where (is_key ordinal content) existing

unfoldable pub existing_ids : Text → List Chunk → StableIds → StableIds
unfolding insert_id
existing_ids document_id [] existing = existing
existing_ids document_id (c ∷ cs) existing = existing_ids document_id cs (
    if text_eq c.document_id document_id
    then insert_id c.ordinal c.content c.stable_id existing
    else existing)

unfoldable pub stable_id_or : ℕ → Text → Text → StableIds → Text
unfolding is_key
stable_id_or ordinal content fresh existing = elim (first_where (is_key ordinal content) existing) [
  | none ↦ fresh
  | some (_, stable) ↦ stable
]

-- UNIQUE (document_id, ordinal) and the unique index on stable_id.
unfoldable pub chunk_conflicts : Chunk → Chunk → Bool
chunk_conflicts new old =
    (text_eq old.document_id new.document_id && (old.ordinal == new.ordinal))
    || text_eq old.stable_id new.stable_id

unfoldable pub new_chunk : Text → ℕ → Text → Text → List Chunk → Chunk
unfolding next_chunk_id
new_chunk document_id ordinal content stable_id chunks = record {
  id = next_chunk_id chunks;
  document_id = document_id;
  ordinal = ordinal;
  content = content;
  stable_id = stable_id;
}

-- id=?1 AND revision=?2 AND status IN ('extracting','chunking','embedding','indexing')
unfoldable pub is_held : Text → ℕ → Job → Bool
is_held id revision j = job_is id revision j && is_processing j.status

unfoldable pub finish_job : ℕ → Job → Job
finish_job now j = record j { status = done; last_error = none; updated_at = now }

-- The statements after the chunks are written.
unfoldable pub finish_publication :
    {V : Type 0} → ℕ → Text → ClaimedJob → Bool → Db V → Result StorageError (Db V)
unfolding is_held finish_job insert_job new_job set_document_status job_is is_processing
finish_publication now job_id job schedule_memory_extraction db =
    let finished = record db {
      jobs = update_where (is_held job.id job.revision) (finish_job now) db.jobs;
    } in
    if schedule_memory_extraction
    then elim (insert_job (new_job now job_id job.document_id memory job.revision) finished) [
      | err e ↦ err e
      | ok db' ↦ ok (record db' {
        documents = set_document_status now job.document_id job.revision indexing db'.documents;
      })
    ]
    else ok (record finished {
      documents = set_document_status now job.document_id job.revision done finished.documents;
    })

module _ (f : Float32) where
  unfoldable pub new_embedding : ℕ → Option (Text × ℕ) → List f.F → List ChunkEmbedding
  new_embedding chunk_id none vector = []
  new_embedding chunk_id (some (model_id, dimensions)) vector =
      record {
        chunk_id = chunk_id;
        model_id = model_id;
        dimensions = dimensions;
        vector = flat_map f.to_le_bytes vector;
      }
      ∷ []

  -- The loop over `chunks.iter().enumerate()`.
  unfoldable pub publish_chunks :
      (ℕ → Text)
      → Text
      → Option (Text × ℕ)
      → ℕ
      → List (EmbeddedChunk f.F)
      → StableIds
      → List Chunk × List ChunkEmbedding
      → Result StorageError (List Chunk × List ChunkEmbedding)
  unfolding stable_id_or new_chunk chunk_conflicts new_embedding is_key
  publish_chunks chunk_ids document_id model ordinal [] existing tables = ok tables
  publish_chunks chunk_ids document_id model ordinal (c ∷ cs) existing (chunks, vectors) =
      let stable_id = stable_id_or ordinal c.content (chunk_ids ordinal) existing in
      let row = new_chunk document_id ordinal c.content stable_id chunks in
      let rest =
        publish_chunks chunk_ids document_id model (ordinal + 1) cs
          (delete_where (is_key ordinal c.content) existing)
          (chunks ++ row ∷ [], vectors ++ new_embedding row.id model c.vector) in
      if exists_where (chunk_conflicts row) chunks then err constraint else rest

  unfoldable pub publish_job :
      {V : Type 0}
      → ℕ
      → (ℕ → Text)
      → Text
      → ClaimedJob
      → List (EmbeddedChunk f.F)
      → Option (Text × ℕ)
      → Bool
      → Db V
      → Result StorageError (Unit {0}) × Db V
  unfolding publish_chunks existing_ids finish_publication delete_chunks revision_of revision_is
  publish_job now chunk_ids job_id job chunks model schedule_memory_extraction db =
      let current_revision = revision_of db.documents job.document_id in
      let existing = existing_ids job.document_id db.chunks [] in
      let cleared = delete_chunks job.document_id db in
      let published =
        publish_chunks chunk_ids job.document_id model 0 chunks existing
          (cleared.chunks, cleared.embeddings) in
      if revision_is current_revision job.revision
      then elim published [
        | err e ↦ (err e, db)
        | ok (rows, vectors) ↦
            elim (finish_publication now job_id job schedule_memory_extraction
              (record cleared { chunks = rows; embeddings = vectors })) [
                | err e ↦ (err e, db)
                | ok db' ↦ (ok tt, db')
              ]
      ]
      else (err (stale_revision job.document_id job.revision current_revision), db)

  unfoldable pub complete_job :
      {V : Type 0}
      → ℕ
      → (ℕ → Text)
      → Text
      → ClaimedJob
      → List Text
      → Db V
      → Result StorageError (Unit {0}) × Db V
  unfolding publish_job
  complete_job now chunk_ids job_id job chunks =
      publish_job now chunk_ids job_id job
        (map (λ content. record { content = content; vector = [] }) chunks) none false

  -- The first error of `validate_vector` over the chunks.
  unfoldable pub validate_chunks : List (EmbeddedChunk f.F) → ℕ → Option StorageError
  unfolding validate_vector
  validate_chunks [] dimensions = none
  validate_chunks (c ∷ cs) dimensions =
      let rest = validate_chunks cs dimensions in
      elim (validate_vector f c.vector dimensions) [ some e ↦ some e | none ↦ rest ]

  unfoldable pub complete_embedded_job :
      {V : Type 0}
      → ℕ
      → (ℕ → Text)
      → Text
      → ClaimedJob
      → List (EmbeddedChunk f.F)
      → Text
      → ℕ
      → Db V
      → Result StorageError (Unit {0}) × Db V
  unfolding validate_chunks publish_job
  complete_embedded_job now chunk_ids job_id job chunks model_id dimensions db =
      if dimensions == 0
      then (err (invalid_vector_dimensions dimensions), db)
      else elim (validate_chunks chunks dimensions) [
        | some e ↦ (err e, db)
        | none ↦ publish_job now chunk_ids job_id job chunks (some (model_id, dimensions)) false db
      ]

  unfoldable pub complete_embedded_job_with_memory_extraction :
      {V : Type 0}
      → ℕ
      → (ℕ → Text)
      → Text
      → ClaimedJob
      → List (EmbeddedChunk f.F)
      → Text
      → ℕ
      → Db V
      → Result StorageError (Unit {0}) × Db V
  unfolding validate_chunks publish_job
  complete_embedded_job_with_memory_extraction now chunk_ids job_id job chunks model_id dimensions
        db =
      if dimensions == 768
      then elim (validate_chunks chunks dimensions) [
        | some e ↦ (err e, db)
        | none ↦ publish_job now chunk_ids job_id job chunks (some (model_id, dimensions)) true db
      ]
      else (err (invalid_vector_dimensions dimensions), db)
