-- ===== src/Storage/Invariant/Enqueue.antt =====
-- `enqueue_unless_active` and `requeue` of crates/storage/src/documents.rs on a document with no
-- active job.
use supermemory_rs.Prelude.{
  ℕ, Text, text_eq, true, false, ◌≡◌, List, [], ◌∷◌, ◌++◌, Option, some, ok, arith, All, All-map,
}
use supermemory_rs.Storage.State.{DocumentState, queued}
use supermemory_rs.Storage.Sql.{count_where, exists_where}
use supermemory_rs.Storage.Sql.Laws.{All-exists, exists-false, zero-All}
use supermemory_rs.Storage.Sql.Keys.{All-both}
use supermemory_rs.Storage.Tables.{Document, document, Job, Db, revision_of, job_conflicts}
use supermemory_rs.Storage.Rows.{insert_job, new_job}
use supermemory_rs.Storage.Upsert.{
  is_active_document_job, has_active_document_job, enqueue_unless_active,
}
use supermemory_rs.Storage.Invariant.{state_of, IsCurrent, active_of, IsValidDb}
use supermemory_rs.Storage.Invariant.Updates.{snoc-IsValid}

document_job_active :
    (id : Text) (current : Option ℕ) (k : Job)
    → active_of id k ≡ false
    → is_active_document_job id current k ≡ false
unfolding active_of is_active_document_job
document_job_active id current k h = ground arith

-- A new job meets the constraints where its id is new and its document has no active job.
conflict_free :
    (new k : Job)
    → (active_of new.document_id k ≡ false) × (text_eq k.id new.id ≡ false)
    → job_conflicts new k ≡ false
unfolding active_of job_conflicts
conflict_free new k h = ground arith

pub conflict-new : (new k : Job) → job_conflicts new k ≡ false → text_eq k.id new.id ≡ false
unfolding job_conflicts
conflict-new new k h = ground arith

module _ {V : Type 0} where
  pub revision_of-some :
      (ds : List (Document V)) (id : Text) {r : ℕ} {s : DocumentState}
      → state_of ds id ≡ some (r, s)
      → revision_of ds id ≡ some r
  unfolding revision_of state_of
  revision_of-some ds id h = ground arith

  module _ (now : ℕ) (job_id id : Text) (db : Db V) (valid : IsValidDb db)
      (idle : count_where (active_of id) db.jobs ≡ 0) where
    no_document_job : has_active_document_job id db ≡ false
    unfolding has_active_document_job
    no_document_job = All-exists _ db.jobs (
        All-map _ _ (λ k h. document_job_active id (revision_of db.documents id) k h) db.jobs
          (zero-All _ db.jobs idle))

    module _ (r : ℕ) (shows : state_of db.documents id ≡ some (r, queued)) where
      abbrev new : Job
      new = new_job now job_id id document r

      abbrev pub enqueued_db : Db V
      enqueued_db = record db { jobs = db.jobs ++ new ∷ [] }

      new-IsCurrent : IsCurrent db.documents new
      unfolding new_job
      new-IsCurrent active = shows

      pub enqueued-IsValid :
          exists_where (job_conflicts new) db.jobs ≡ false → IsValidDb enqueued_db
      unfolding new_job
      enqueued-IsValid free =
          snoc-IsValid db.documents db.jobs valid new idle
            (All-map _ _ (λ k h. conflict-new new k h) db.jobs (exists-false _ db.jobs free))
            new-IsCurrent

      pub enqueue_free :
          All (λ k. text_eq k.id job_id ≡ false) db.jobs
          → (enqueue_unless_active now job_id id db ≡ ok (true, enqueued_db))
            × IsValidDb enqueued_db
      unfolding enqueue_unless_active insert_job new_job
      enqueue_free fresh =
          let free : exists_where (job_conflicts new) db.jobs ≡ false = All-exists _ db.jobs (
            All-map _ _ (λ k h. conflict_free new k h) db.jobs
              (All-both _ _ db.jobs (zero-All _ db.jobs idle) fresh)) in
          (
            rw (no_document_job, enqueue_unless_active)
                (rw (revision_of-some db.documents id shows) (rw free)),
            enqueued-IsValid free,
          )
