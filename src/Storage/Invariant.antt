-- ===== src/Storage/Invariant.antt =====
-- What holds of the documents and jobs of a database between two operations.
pub mod Updates
pub mod Held
pub mod Claims
pub mod Stages
pub mod Enqueue
pub mod Rewrite
pub mod Upsert
use supermemory_rs.Prelude.{
  ℕ, ◌≤◌, Text, text_eq, Bool, true, false, ◌&&◌, ◌≡◌, List, [], ◌∷◌, Option, none, some, All,
}
use supermemory_rs.Storage.State.{DocumentState, indexing}
use supermemory_rs.Storage.Sql.{count_where}
use supermemory_rs.Storage.Sql.Keys.{Distinct}
use supermemory_rs.Storage.Tables.{
  Document, JobKind, document, memory, Job, Db, is_active, find_document,
}

-- The revision and the status of a document.
unfoldable pub state_of : {V : Type 0} → List (Document V) → Text → Option (ℕ × DocumentState)
state_of documents id = elim (find_document documents id) [
  | none ↦ none
  | some d ↦ some (d.revision, d.status)
]

-- The status that a document shows while a job works on it: a memory job runs behind `indexing`.
abbrev pub shown : JobKind → DocumentState → DocumentState
shown document status = status
shown memory status = indexing

-- An active job is at the current revision of its document, which shows the job's status.
abbrev pub IsCurrent : {V : Type 0} → List (Document V) → Job → Type 0
IsCurrent documents j =
    is_active j.status ≡ true
    → state_of documents j.document_id ≡ some (j.revision, shown j.kind j.status)

unfoldable pub active_of : Text → Job → Bool
active_of id j = text_eq j.document_id id && is_active j.status

pub record IsValid {V : Type 0} (documents : List (Document V)) (jobs : List Job) : Type 0 where
  pub current : All (IsCurrent documents) jobs
  pub single : (id : Text) → count_where (active_of id) jobs ≤ 1
  pub distinct : Distinct (λ j. j.id) jobs
  pub documents_distinct : Distinct (λ d. d.id) documents

abbrev pub IsValidDb : {V : Type 0} → Db V → Type 0
IsValidDb db = IsValid db.documents db.jobs
