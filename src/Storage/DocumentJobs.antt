-- ===== src/Storage/DocumentJobs.antt =====
-- crates/storage/src/document_jobs.rs: claiming, staging, publishing and failing document jobs.
-- `now` is CURRENT_TIMESTAMP. An operation returns its result and the database after it: where it
-- returns before its commit, that is the database before it. `job_id` and `chunk_ids` are what
-- `generate_id` returns. The statements fail only by the constraints of the schema.
use supermemory_rs.Prelude.{
  ℕ, Text, Bool, ◌&&◌, ◌||◌, Option, none, some, Result, ok, err, ◌==◌, if◌then◌else◌,
}
use supermemory_rs.Storage.State.{DocumentState, extracting, chunking, failed, as_str}
use supermemory_rs.Storage.Sql.{update_where, delete_where, select_where, exists_where, count_where}
use supermemory_rs.Storage.Tables.{
  Document, document, Job, Db, StorageError, stale_revision, invalid_job_stage, ClaimedJob,
  status_eq, find_document,
}
use supermemory_rs.Storage.Rows.{
  oldest, document_is, set_document_status, job_is, is_queued_job, start_job, job_at,
  expected_stage, is_claimable, cascade_document,
}

module _ {V : Type 0} where
  unfoldable pub claimed_job : Job → Document V → ClaimedJob
  claimed_job j d = record {
    id = j.id;
    document_id = d.id;
    content = d.content;
    revision = j.revision;
  }

  unfoldable pub claim_row : ℕ → Job → Db V → Db V
  unfolding is_queued_job start_job set_document_status
  claim_row now j db = record db {
    jobs = update_where (is_queued_job j.id j.revision) (start_job now) db.jobs;
    documents = set_document_status now j.document_id j.revision extracting db.documents;
  }

  unfoldable pub claim_job : ℕ → Db V → Result StorageError (Option ClaimedJob) × Db V
  unfolding is_claimable claim_row claimed_job
  claim_job now db = elim (oldest (select_where (is_claimable now document db.documents) db.jobs)) [
    | none ↦ (ok none, db)
    | some j ↦ elim (find_document db.documents j.document_id) [
      | none ↦ (ok none, db)
      | some d ↦ (ok (some (claimed_job j d)), claim_row now j db)
    ]
  ]

  unfoldable pub stage_rows : ℕ → ClaimedJob → DocumentState → DocumentState → Db V → Db V
  unfolding job_at set_document_status
  stage_rows now job expected stage db = record db {
    jobs =
        update_where (job_at job.id job.revision expected)
          (λ j. record j { status = stage; updated_at = now }) db.jobs;
    documents = set_document_status now job.document_id job.revision stage db.documents;
  }

  unfoldable pub mark_job_stage :
      ℕ → ClaimedJob → DocumentState → Db V → Result StorageError (Unit {0}) × Db V
  unfolding stage_rows job_at document_is expected_stage
  mark_job_stage now job stage db = elim (expected_stage stage) [
    | none ↦ (err (invalid_job_stage (as_str stage)), db)
    | some expected ↦
        if (count_where (job_at job.id job.revision expected) db.jobs == 1)
          && (count_where (document_is job.document_id job.revision) db.documents == 1)
        then (ok tt, stage_rows now job expected stage db)
        else (err (stale_revision job.document_id job.revision none), db)
  ]

  unfoldable pub fail_job : ℕ → ClaimedJob → Text → Db V → Result StorageError (Unit {0}) × Db V
  unfolding job_is set_document_status
  fail_job now job error db = (
    ok tt,
    record db {
      jobs =
          update_where (job_is job.id job.revision)
            (λ j. record j { status = failed; last_error = some error; updated_at = now }) db.jobs;
      documents = set_document_status now job.document_id job.revision failed db.documents;
    },
  )

  -- id=?1 AND revision=?2 AND status IN ('extracting','chunking')
  unfoldable pub is_empty_document : ClaimedJob → Document V → Bool
  unfolding document_is status_eq
  is_empty_document job d =
      document_is job.document_id job.revision d
      && (status_eq d.status extracting || status_eq d.status chunking)

  unfoldable pub delete_empty_document : ClaimedJob → Db V → Result StorageError (Unit {0}) × Db V
  unfolding is_empty_document cascade_document
  delete_empty_document job db =
      if exists_where (is_empty_document job) db.documents
      then (
        ok tt,
        record (cascade_document job.document_id db) {
          documents = delete_where (is_empty_document job) db.documents;
        },
      )
      else (ok tt, db)
