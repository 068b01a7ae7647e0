-- ===== src/Storage/Recovery.antt =====
-- The recovery of interrupted work in `initialize` of crates/storage/src/lib.rs, run when the
-- database is opened.
use supermemory_rs.Prelude.{ℕ, text_eq, Bool, not, ◌&&◌, List, ◌==◌}
use supermemory_rs.Storage.State.{queued, indexing}
use supermemory_rs.Storage.Sql.{update_where, exists_where}
use supermemory_rs.Storage.Tables.{
  Document, JobKind, document, memory, Job, Db, is_processing, status_eq, kind_eq,
}
use supermemory_rs.Storage.Rows.{document_is}
use supermemory_rs.Storage.MemoryJobs.{stale_job}

unfoldable pub requeue_job : ℕ → Job → Job
requeue_job now j = record j { status = queued; available_at = now; updated_at = now }

module _ {V : Type 0} where
  -- kind='memory' AND status='queued' AND NOT EXISTS(SELECT 1 FROM documents …)
  unfoldable pub is_orphaned : List (Document V) → Job → Bool
  unfolding kind_eq status_eq document_is
  is_orphaned documents j =
      kind_eq j.kind memory
      && status_eq j.status queued
      && not (exists_where (document_is j.document_id j.revision) documents)

  unfoldable pub has_queued_job : JobKind → List Job → Document V → Bool
  unfolding kind_eq status_eq
  has_queued_job kind jobs d =
      exists_where
        (λ j.
          text_eq j.document_id d.id
          && (j.revision == d.revision)
          && kind_eq j.kind kind
          && status_eq j.status queued)
        jobs

  unfoldable pub is_interrupted : JobKind → List Job → Document V → Bool
  unfolding has_queued_job is_processing
  is_interrupted kind jobs d = has_queued_job kind jobs d && is_processing d.status

  unfoldable pub recover_jobs : ℕ → Db V → List Job
  unfolding is_processing requeue_job is_orphaned stale_job
  recover_jobs now db =
      update_where (is_orphaned db.documents) (stale_job now)
        (update_where (λ j. is_processing j.status) (requeue_job now) db.jobs)

  unfoldable pub recover_documents : ℕ → List Job → List (Document V) → List (Document V)
  unfolding is_interrupted
  recover_documents now jobs documents =
      update_where (is_interrupted memory jobs)
        (λ d. record d { status = indexing; updated_at = now })
        (update_where (is_interrupted document jobs)
          (λ d. record d { status = queued; updated_at = now }) documents)

  unfoldable pub recover : ℕ → Db V → Db V
  unfolding recover_jobs recover_documents
  recover now db =
      let jobs = recover_jobs now db in
      record db { jobs = jobs; documents = recover_documents now jobs db.documents }
