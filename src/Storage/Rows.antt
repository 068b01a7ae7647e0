-- ===== src/Storage/Rows.antt =====
-- The statements on jobs and documents that several operations of crates/storage run.
use supermemory_rs.Prelude.{
  ℕ, ◌+◌, Text, text_eq, Bool, false, ◌&&◌, List, [], ◌∷◌, ◌++◌, Option, none, some, Result, ok,
  err, ◌==◌, leb, if◌then◌else◌,
}
use supermemory_rs.Storage.State.{DocumentState, queued, extracting, chunking, embedding, indexing}
use supermemory_rs.Storage.Sql.{update_where, delete_where, select_where, exists_where}
use supermemory_rs.Storage.Tables.{
  Document, JobKind, Job, Chunk, ChunkEmbedding, Db, StorageError, constraint, status_eq, kind_eq,
  find_document, job_conflicts,
}

-- The earlier of two rows: of rows created together, the one that stands first.
unfoldable pub earlier : Job → Option Job → Job
earlier j none = j
earlier j (some k) = if leb j.created_at k.created_at then j else k

-- ORDER BY jobs.created_at, jobs.rowid LIMIT 1
unfoldable pub oldest : List Job → Option Job
unfolding earlier
oldest [] = none
oldest (j ∷ js) = some (earlier j (oldest js))

-- INSERT INTO jobs
unfoldable pub insert_job : {V : Type 0} → Job → Db V → Result StorageError (Db V)
unfolding job_conflicts
insert_job j db =
    if exists_where (job_conflicts j) db.jobs
    then err constraint
    else ok (record db { jobs = db.jobs ++ j ∷ [] })

-- A row of jobs as an INSERT of the columns (id, document_id, kind, status, revision) makes it.
unfoldable pub new_job : ℕ → Text → Text → JobKind → ℕ → Job
new_job now id document_id kind revision = record {
  id = id;
  document_id = document_id;
  kind = kind;
  status = queued;
  attempts = 0;
  available_at = now;
  last_error = none;
  last_error_kind = none;
  extraction_result = none;
  revision = revision;
  created_at = now;
  updated_at = now;
}

unfoldable pub revision_is : Option ℕ → ℕ → Bool
revision_is none revision = false
revision_is (some current) revision = current == revision

-- UPDATE documents SET status=…, updated_at=CURRENT_TIMESTAMP WHERE id=… AND revision=…
unfoldable pub document_is : {V : Type 0} → Text → ℕ → Document V → Bool
document_is id revision d = text_eq d.id id && (d.revision == revision)

unfoldable pub set_document_status :
    {V : Type 0} → ℕ → Text → ℕ → DocumentState → List (Document V) → List (Document V)
unfolding document_is
set_document_status now id revision status =
    update_where (document_is id revision) (λ d. record d { status = status; updated_at = now })

-- WHERE id=?1 AND revision=?2
unfoldable pub job_is : Text → ℕ → Job → Bool
job_is id revision j = text_eq j.id id && (j.revision == revision)

-- UPDATE jobs SET status='extracting', attempts=attempts+1 WHERE id=?1 AND revision=?2 AND
-- status='queued'
unfoldable pub is_queued_job : Text → ℕ → Job → Bool
unfolding job_is status_eq
is_queued_job id revision j = job_is id revision j && status_eq j.status queued

unfoldable pub start_job : ℕ → Job → Job
start_job now j = record j { status = extracting; attempts = j.attempts + 1; updated_at = now }

unfoldable pub job_at : Text → ℕ → DocumentState → Job → Bool
unfolding job_is status_eq
job_at id revision status j = job_is id revision j && status_eq j.status status

-- The status that a stage follows.
unfoldable pub expected_stage : DocumentState → Option DocumentState
expected_stage chunking = some extracting
expected_stage embedding = some chunking
expected_stage indexing = some embedding
expected_stage _ = none

-- DELETE FROM documents: the foreign keys cascade to jobs, chunks and their vectors.
unfoldable pub belongs_to : List Chunk → ChunkEmbedding → Bool
belongs_to chunks e = exists_where (λ c. c.id == e.chunk_id) chunks

module _ {V : Type 0} where
  -- The condition of the claim queries, on a job and the document that it is joined with.
  unfoldable pub is_claimable : ℕ → JobKind → List (Document V) → Job → Bool
  is_claimable now kind documents j =
      kind_eq j.kind kind
      && status_eq j.status queued
      && elim (find_document documents j.document_id) [
        | none ↦ false
        | some d ↦ j.revision == d.revision
      ]
      && leb j.available_at now

  unfoldable pub delete_chunks : Text → Db V → Db V
  unfolding belongs_to
  delete_chunks id db =
      let chunks = delete_where (λ c. text_eq c.document_id id) db.chunks in
      record db { chunks = chunks; embeddings = select_where (belongs_to chunks) db.embeddings }

  unfoldable pub cascade_document : Text → Db V → Db V
  unfolding delete_chunks
  cascade_document id db = record (delete_chunks id db) {
    jobs = delete_where (λ j. text_eq j.document_id id) db.jobs;
  }
