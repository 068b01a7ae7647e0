-- ===== src/Storage/Tables.antt =====
-- The tables of migrations/ that documents and jobs live in, and the types of
-- crates/storage/src/lib.rs that the operations take and return. A database is a record of tables.
use supermemory_rs.Prelude.{
  ℕ, ◌+◌, max, Text, text_eq, Bool, true, false, ◌&&◌, List, [], ◌∷◌, Option, none, some, ◌==◌,
  if◌then◌else◌,
}
use supermemory_rs.Storage.State.{
  DocumentState, unknown, queued, extracting, chunking, embedding, indexing, done, failed,
}
use supermemory_rs.Storage.Sql.{first_where}

-- A JSON object, with values of `serde_json`.
abbrev pub Metadata : Type 0 → Type 0
Metadata V = List (Text × V)

pub record Document (V : Type 0) : Type 0 where
  pub id : Text
  pub org_id : Text
  pub content : Text
  pub content_hash : Text
  pub custom_id : Option Text
  pub status : DocumentState
  pub container_tags : List Text
  pub entity_context : Option Text
  pub metadata : Metadata V
  pub task_type : Text
  pub filepath : Option Text
  pub filter_by_metadata : Metadata V
  pub dreaming : Text
  pub revision : ℕ
  pub created_at : ℕ
  pub updated_at : ℕ

pub data JobKind : Type 0 where
  document memory : JobKind

pub record Job : Type 0 where
  pub id : Text
  pub document_id : Text
  pub kind : JobKind
  pub status : DocumentState
  pub attempts : ℕ
  pub available_at : ℕ
  pub last_error : Option Text
  pub last_error_kind : Option Text
  pub extraction_result : Option Text
  pub revision : ℕ
  pub created_at : ℕ
  pub updated_at : ℕ

pub record Chunk : Type 0 where
  pub id : ℕ
  pub document_id : Text
  pub ordinal : ℕ
  pub content : Text
  pub stable_id : Text

pub record ChunkEmbedding : Type 0 where
  pub chunk_id : ℕ
  pub model_id : Text
  pub dimensions : ℕ
  pub vector : List ℕ  -- bytes

pub record Db (V : Type 0) : Type 0 where
  pub documents : List (Document V)
  pub jobs : List Job
  pub chunks : List Chunk
  pub embeddings : List ChunkEmbedding

-- The errors of `StorageError` that the modelled operations return. `constraint` is the
-- `Write` error of a violated UNIQUE constraint, and `no_row` the `Read` error of a query that
-- finds no row; the norm in `invalid_vector_norm` is left out.
pub data StorageError : Type 0 where
  constraint : StorageError
  no_row : StorageError
  invalid_vector_dimensions : ℕ → StorageError
  invalid_vector_length : ℕ → ℕ → StorageError
  non_finite_vector : StorageError
  invalid_vector_norm : StorageError
  stale_revision : Text → ℕ → Option ℕ → StorageError
  invalid_job_stage : Text → StorageError
  invalid_memory_proposal : StorageError
  unknown_memory_source : Text → StorageError
  memory_not_found : StorageError

pub record ClaimedJob : Type 0 where
  pub id : Text
  pub document_id : Text
  pub content : Text
  pub revision : ℕ

-- status IN ('queued','extracting','chunking','embedding','indexing')
unfoldable pub is_active : DocumentState → Bool
is_active queued = true
is_active extracting = true
is_active chunking = true
is_active embedding = true
is_active indexing = true
is_active _ = false

-- status IN ('extracting','chunking','embedding','indexing')
unfoldable pub is_processing : DocumentState → Bool
is_processing extracting = true
is_processing chunking = true
is_processing embedding = true
is_processing indexing = true
is_processing _ = false

unfoldable pub status_eq : DocumentState → DocumentState → Bool
status_eq unknown unknown = true
status_eq queued queued = true
status_eq extracting extracting = true
status_eq chunking chunking = true
status_eq embedding embedding = true
status_eq indexing indexing = true
status_eq done done = true
status_eq failed failed = true
status_eq _ _ = false

unfoldable pub kind_eq : JobKind → JobKind → Bool
kind_eq document document = true
kind_eq memory memory = true
kind_eq _ _ = false

-- documents.id is the primary key.
unfoldable pub find_document : {V : Type 0} → List (Document V) → Text → Option (Document V)
find_document documents id = first_where (λ d. text_eq d.id id) documents

-- SELECT revision FROM documents WHERE id=?1
unfoldable pub revision_of : {V : Type 0} → List (Document V) → Text → Option ℕ
revision_of documents id = elim (find_document documents id) [
  | none ↦ none
  | some d ↦ some d.revision
]

-- SQLite gives a new row the largest id plus one.
unfoldable pub next_chunk_id : List Chunk → ℕ
next_chunk_id [] = 1
next_chunk_id (c ∷ cs) = max (c.id + 1) (next_chunk_id cs)

-- The unique index jobs_one_active_document_revision_idx, and the primary key of jobs.
unfoldable pub job_conflicts : Job → Job → Bool
unfolding is_active
job_conflicts new old =
    if text_eq old.id new.id
    then true
    else is_active new.status
      && is_active old.status
      && text_eq old.document_id new.document_id
      && (old.revision == new.revision)
