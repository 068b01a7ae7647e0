-- ===== src/Storage/MemoryJobs.antt =====
-- crates/storage/src/memory_jobs.rs and `mark_memory_job_stale` of crates/storage/src/lib.rs: the
-- jobs that extract memories. The claimed job keeps the columns that these operations read.
use supermemory_rs.Prelude.{
  ℕ, ◌+◌, Text, text_eq, Bool, not, ◌&&◌, ◌||◌, List, [], ◌∷◌, Option, none, some, Result, ok, err,
  ◌==◌, leb, if◌then◌else◌, codes, max, is_some,
}
use supermemory_rs.Storage.State.{queued, extracting, done, failed}
use supermemory_rs.Storage.Sql.{update_where, select_where, exists_where, count_where}
use supermemory_rs.Storage.Tables.{
  Document, memory, Job, Db, StorageError, stale_revision, is_active, find_document, revision_of,
}
use supermemory_rs.Storage.Rows.{
  oldest, document_is, set_document_status, job_is, is_queued_job, start_job, job_at, is_claimable,
  revision_is,
}

pub record ClaimedMemoryJob : Type 0 where
  pub id : Text
  pub document_id : Text
  pub content : Text
  pub revision : ℕ
  pub organization_id : Text
  pub container_tag : Text
  pub document_date : Option Text
  pub extraction_result : Option Text
  pub attempts : ℕ

-- The first tag, or the default project.
unfoldable pub first_tag : List Text → Text
first_tag [] = codes "sm_project_default"
first_tag (t ∷ ts) = t

unfoldable pub max_attempts : ℕ
max_attempts = 4

-- UPDATE jobs SET status='failed', last_error_kind='stale_revision', last_error=NULL
unfoldable pub stale_job : ℕ → Job → Job
stale_job now j = record j {
  status = failed;
  last_error_kind = some (codes "stale_revision");
  last_error = none;
  updated_at = now;
}

unfoldable pub is_active_job : Text → ℕ → Job → Bool
unfolding job_is is_active
is_active_job id revision j = job_is id revision j && is_active j.status

unfoldable pub finish_memory_job : ℕ → Job → Job
finish_memory_job now j = record j {
  status = done;
  extraction_result = none;
  last_error_kind = none;
  last_error = none;
  updated_at = now;
}

-- The delay in whole seconds, at least one where there is a retry.
unfoldable pub delay_seconds : Option ℕ → ℕ
delay_seconds none = 0
delay_seconds (some delay) = max delay 1

unfoldable pub is_terminal : Option ℕ → ℕ → Bool
unfolding max_attempts
is_terminal retry_delay attempts = not (is_some retry_delay) || leb max_attempts attempts

unfoldable pub retried_job : ℕ → Bool → Text → Text → ℕ → Job → Job
retried_job now terminal error_kind error delay j = record j {
  status = if terminal then failed else queued;
  last_error_kind = some error_kind;
  last_error = some error;
  available_at = now + delay;
  updated_at = now;
}

-- `date` reads a string from the metadata of a document.
module _ {V : Type 0} (as_str : V → Option Text) where
  unfoldable pub metadata_text : Text → List (Text × V) → Option Text
  metadata_text key [] = none
  metadata_text key ((k, v) ∷ rest) = if text_eq k key then as_str v else metadata_text key rest

  unfoldable pub claimed_memory_job : Job → Document V → ClaimedMemoryJob
  unfolding first_tag metadata_text
  claimed_memory_job j d = record {
    id = j.id;
    document_id = d.id;
    content = d.content;
    revision = j.revision;
    organization_id = d.org_id;
    container_tag = first_tag d.container_tags;
    document_date = metadata_text (codes "date") d.metadata;
    extraction_result = j.extraction_result;
    attempts = j.attempts + 1;
  }

  unfoldable pub claim_memory_job : ℕ → Db V → Result StorageError (Option ClaimedMemoryJob) × Db V
  unfolding is_claimable claimed_memory_job is_queued_job start_job
  claim_memory_job now db =
      elim (oldest (select_where (is_claimable now memory db.documents) db.jobs)) [
        | none ↦ (ok none, db)
        | some j ↦ elim (find_document db.documents j.document_id) [
          | none ↦ (ok none, db)
          | some d ↦
              if count_where (is_queued_job j.id j.revision) db.jobs == 1
              then (
                ok (some (claimed_memory_job j d)),
                record db {
                  jobs = update_where (is_queued_job j.id j.revision) (start_job now) db.jobs;
                },
              )
              else (err (stale_revision d.id j.revision none), db)
        ]
      ]

module _ {V : Type 0} where
  unfoldable pub has_active_processing_jobs : Db V → Bool
  unfolding is_active
  has_active_processing_jobs db = exists_where (λ j. is_active j.status) db.jobs

  unfoldable pub mark_memory_job_stale : ℕ → ClaimedMemoryJob → Db V → Db V
  unfolding is_active_job stale_job
  mark_memory_job_stale now job db = record db {
    jobs = update_where (is_active_job job.id job.revision) (stale_job now) db.jobs;
  }

  -- … AND EXISTS(SELECT 1 FROM documents WHERE id=jobs.document_id AND revision=jobs.revision)
  unfoldable pub is_cacheable : ClaimedMemoryJob → Db V → Job → Bool
  unfolding job_at document_is
  is_cacheable job db j =
      job_at job.id job.revision extracting j
      && exists_where (document_is j.document_id j.revision) db.documents

  -- The stale mark is committed though an error is returned.
  unfoldable pub cache_memory_extraction :
      ℕ → ClaimedMemoryJob → Text → Db V → Result StorageError (Unit {0}) × Db V
  unfolding is_cacheable mark_memory_job_stale
  cache_memory_extraction now job result db =
      if count_where (is_cacheable job db) db.jobs == 1
      then (
        ok tt,
        record db {
          jobs =
              update_where (is_cacheable job db)
                (λ j. record j { extraction_result = some result; updated_at = now }) db.jobs;
        },
      )
      else (
        err (stale_revision job.document_id job.revision none),
        mark_memory_job_stale now job db,
      )

  unfoldable pub complete_memory_job :
      ℕ → ClaimedMemoryJob → Db V → Result StorageError (Unit {0}) × Db V
  unfolding revision_of revision_is job_is stale_job job_at document_is finish_memory_job
      set_document_status
  complete_memory_job now job db =
      let current = revision_of db.documents job.document_id in
      if revision_is current job.revision
      then if (count_where (job_at job.id job.revision extracting) db.jobs == 1)
          && (count_where (document_is job.document_id job.revision) db.documents == 1)
        then (
          ok tt,
          record db {
            jobs =
                update_where (job_at job.id job.revision extracting) (finish_memory_job now)
                  db.jobs;
            documents = set_document_status now job.document_id job.revision done db.documents;
          },
        )
        else (err (stale_revision job.document_id job.revision current), db)
      else (
        ok tt,
        record db { jobs = update_where (job_is job.id job.revision) (stale_job now) db.jobs },
      )

  unfoldable pub retry_memory_job :
      ℕ → ClaimedMemoryJob → Text → Text → Option ℕ → Db V → Result StorageError (Unit {0}) × Db V
  unfolding revision_of revision_is mark_memory_job_stale is_terminal delay_seconds job_at
      retried_job set_document_status
  retry_memory_job now job error_kind error retry_delay db =
      let terminal = is_terminal retry_delay job.attempts in
      let jobs =
        update_where (job_at job.id job.revision extracting)
          (retried_job now terminal error_kind error (delay_seconds retry_delay)) db.jobs in
      let documents = set_document_status now job.document_id job.revision failed db.documents in
      if revision_is (revision_of db.documents job.document_id) job.revision
      then if count_where (job_at job.id job.revision extracting) db.jobs == 1
        then (
          ok tt,
          if terminal
              then record db { jobs = jobs; documents = documents }
              else record db { jobs = jobs },
        )
        else (err (stale_revision job.document_id job.revision none), db)
      else (ok tt, mark_memory_job_stale now job db)
