-- ===== src/Tests/Storage.antt =====
-- crates/storage at a database with one document and one job.
use supermemory_rs.Prelude.{
  ℕ, ◌≤◌, Text, codes, text_eq, true, false, ◌≡◌, ◌↔◌, ◌≢◌, refl, ◌⊎◌, inl, [], ◌∷◌, none, some, ok,
  err, All, arith,
}
use supermemory_rs.Storage.State.{
  DocumentState, queued, extracting, chunking, indexing, done, failed, as_str, from_str,
  from_str_iff, transition,
}
use supermemory_rs.Storage.Sql.{count_where, first_where}
use supermemory_rs.Storage.Sql.Laws.{Among}
use supermemory_rs.Storage.Tables.{
  Document, JobKind, document, memory, Job, Db, stale_revision, ClaimedJob, is_processing,
  find_document,
}
use supermemory_rs.Storage.Rows.{is_claimable, expected_stage}
use supermemory_rs.Storage.DocumentJobs.{claim_job, mark_job_stage, fail_job}
use supermemory_rs.Storage.Upsert.{UpsertDocument, upsert_document_for}
use supermemory_rs.Storage.Invariant.{state_of, active_of, IsValidDb}
use supermemory_rs.Storage.Invariant.Held.{IsHeld}
use supermemory_rs.Storage.Invariant.Claims.{IsClaimOf, claim_job-IsClaimOf}
use supermemory_rs.Storage.Invariant.Stages.{mark_job_stage-progress, fail_job-failed}
use supermemory_rs.Storage.Invariant.Upsert.{IsUpsert, upsert_document_for-IsUpsert}

abbrev pub doc_at : DocumentState → Document ℕ
doc_at status = record {
  id = codes "d";
  org_id = codes "o";
  content = codes "text";
  content_hash = codes "text";
  custom_id = none;
  status = status;
  container_tags = [];
  entity_context = none;
  metadata = [];
  task_type = codes "memory";
  filepath = none;
  filter_by_metadata = [];
  dreaming = codes "instant";
  revision = 1;
  created_at = 5;
  updated_at = 5;
}

abbrev pub job_of : JobKind → DocumentState → Job
job_of kind status = record {
  id = codes "j";
  document_id = codes "d";
  kind = kind;
  status = status;
  attempts = 0;
  available_at = 5;
  last_error = none;
  last_error_kind = none;
  extraction_result = none;
  revision = 1;
  created_at = 5;
  updated_at = 5;
}

abbrev pub db_at : JobKind → DocumentState → DocumentState → Db ℕ
db_at kind shows status = record {
  documents = doc_at shows ∷ [];
  jobs = job_of kind status ∷ [];
  chunks = [];
  embeddings = [];
}

abbrev pub claimed : ClaimedJob
claimed = record { id = codes "j"; document_id = codes "d"; content = codes "text"; revision = 1 }

single_job :
    (kind : JobKind) (status : DocumentState) (id : Text)
    → count_where (active_of id) (job_of kind status ∷ []) ≤ 1
unfolding count_where
single_job kind status id = ground arith

pub valid_at : (status : DocumentState) → IsValidDb (db_at document status status)
unfolding state_of find_document first_where text_eq
valid_at status = record {
  current = ((λ _. refl), tt);
  single = single_job document status;
  distinct = (tt, tt);
  documents_distinct = (tt, tt);
}

-- A document that waits for its memories.
pub memory_valid : IsValidDb (db_at memory indexing queued)
unfolding state_of find_document first_where text_eq
memory_valid = record {
  current = ((λ _. refl), tt);
  single = single_job memory queued;
  distinct = (tt, tt);
  documents_distinct = (tt, tt);
}

pub held_at :
    (status : DocumentState)
    → is_processing status ≡ true
    → IsHeld ((db_at document status status).jobs) (codes "j") (codes "d") 1 document
held_at status processing = record {
  row = job_of document status;
  among = inl refl;
  same_id = refl;
  same_document = refl;
  same_revision = refl;
  same_kind = refl;
  processing = processing;
}

from_str_iff_example : (from_str (codes "done") ≡ ok done) ↔ (codes "done" ≡ as_str done)
from_str_iff_example = from_str_iff (codes "done") done

claim_job-IsClaimOf_example :
    ((claim_job 9 (db_at document queued queued) ≡ (ok none, db_at document queued queued))
      × All
          (λ k. is_claimable 9 document (doc_at queued ∷ []) k ≡ false)
          (job_of document queued ∷ []))
    ⊎ ((c : ClaimedJob) × (db' : Db ℕ) × (claim_job 9 (db_at document queued queued)
          ≡ (ok (some c), db'))
        × IsClaimOf 9 (db_at document queued queued) db' c
        × IsValidDb db')
claim_job-IsClaimOf_example = claim_job-IsClaimOf 9 (db_at document queued queued) (valid_at queued)

-- The alternatives of `mark_job_stage-progress`.
abbrev Advances :
    Db ℕ
    → IsHeld ((db_at document extracting extracting).jobs) (codes "j") (codes "d") 1 document
    → Type 0
Advances db held =
    ((held.row.status ≡ extracting)
      × (db' : Db ℕ) × (mark_job_stage 9 claimed chunking db ≡ (ok tt, db'))
      × IsValidDb db'
      × ((after : IsHeld db'.jobs (codes "j") (codes "d") 1 document) × (after.row.status
            ≡ chunking))
      × (transition extracting chunking ≡ ok chunking))
    ⊎ ((held.row.status ≢ extracting)
        × (mark_job_stage 9 claimed chunking db ≡ (err (stale_revision (codes "d") 1 none), db)))

abbrev extracting_held :
    IsHeld ((db_at document extracting extracting).jobs) (codes "j") (codes "d") 1 document
unfolding is_processing
extracting_held = held_at extracting refl

mark_job_stage-progress_example : Advances (db_at document extracting extracting) extracting_held
unfolding expected_stage
mark_job_stage-progress_example =
    mark_job_stage-progress 9 claimed (db_at document extracting extracting) chunking extracting
      refl (valid_at extracting) extracting_held

fail_job-failed_example :
    (db' : Db ℕ) × (fail_job 9 claimed (codes "e") (db_at document extracting extracting)
      ≡ (ok tt, db'))
    × IsValidDb db'
    × (state_of db'.documents (codes "d") ≡ some (1, failed))
    × ((row : Job) × Among row db'.jobs
        × (row.id ≡ codes "j")
        × (row.status ≡ failed)
        × (row.last_error ≡ some (codes "e")))
    × (db'.chunks ≡ [])
    × (db'.embeddings ≡ [])
fail_job-failed_example =
    fail_job-failed 9 claimed (codes "e") (db_at document extracting extracting)
      (valid_at extracting) extracting_held

abbrev given : UpsertDocument ℕ
given = record {
  content = codes " new text ";
  custom_id = none;
  container_tags = [];
  entity_context = none;
  metadata = [];
  task_type = codes "memory";
  filepath = none;
  filter_by_metadata = [];
  dreaming = codes "instant";
}

upsert_document_for-IsUpsert_example : IsUpsert 9 (codes "k") (db_at document queued queued) (
    upsert_document_for
      (λ _. none)
      (λ t. t)
      9
      (codes "e")
      (codes "k")
      (codes "o")
      given
      (db_at document queued queued))
unfolding text_eq
upsert_document_for-IsUpsert_example =
    upsert_document_for-IsUpsert 9 (codes "e") (codes "k") (db_at document queued queued)
      (valid_at queued) (refl, tt) (refl, tt) (λ _. none) (λ t. t) (codes "o") given
