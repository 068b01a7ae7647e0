-- ===== src/Storage/Protocol/Publish.antt =====
-- `publish_job` of crates/storage/src/document_jobs.rs under a good claim, and the operations that
-- call it.
use supermemory_rs.Prelude.{
  ℕ, Text, text_eq, text_eq_iff, Bool, true, false, ◌≡◌, ◌≢◌, refl, ◌⊎◌, inl, inr, ◌∷◌, ◌++◌, [],
  List, Option, Result, ok, err, OnOk, Result-cases, arith, Bool-cases, All-map,
}
use supermemory_rs.Storage.State.{DocumentState, done, indexing}
use supermemory_rs.Storage.Sql.{update_where, count_where, exists_where}
use supermemory_rs.Storage.Sql.Laws.{All-update, count_zero, count_one, exists-false}
use supermemory_rs.Storage.Tables.{
  ClaimedJob, Document, Job, Chunk, ChunkEmbedding, Db, memory, is_active, revision_of,
  StorageError, job_conflicts,
}
use supermemory_rs.Storage.Rows.{
  job_is, set_document_status, revision_is, insert_job, new_job, delete_chunks,
}
use supermemory_rs.Storage.Publish.{
  is_held, finish_job, finish_publication, Float32, EmbeddedChunk, publish_chunks, existing_ids,
  publish_job,
}
use supermemory_rs.Storage.Invariant.{state_of, active_of, IsValid, IsValidDb}
use supermemory_rs.Storage.Invariant.Updates.{active_of_intro, snoc-IsValid, state_of-set_self}
use supermemory_rs.Storage.Invariant.Held.{IsHeld, focus_held, processing-active}
use supermemory_rs.Storage.Invariant.Enqueue.{conflict-new}
use supermemory_rs.Storage.Invariant.Stages.{document_of_held}
use supermemory_rs.Storage.Protocol.Claim.{
  Claim, document_claim, Holds, IsPast, IsGood, IsGoodDb, IsGood-other, IsGood-append, IsPast-set,
}

is_held_id :
    (id : Text) (revision : ℕ) (j : Job) → is_held id revision j ≡ true → text_eq j.id id ≡ true
unfolding is_held job_is
is_held_id id revision j h = ground arith

pub current_past :
    {V : Type 0} (ds : List (Document V)) (id : Text) (revision : ℕ)
    → revision_is (revision_of ds id) revision ≡ true
    → IsPast (state_of ds id) revision
    → ⊥
unfolding revision_is revision_of state_of
current_past ds id revision h past = ground arith

-- After the held row is made inactive its document has no active job.
pub emptied :
    {V : Type 0} (ds : List (Document V)) (js : List Job) (id document_id : Text) (revision : ℕ)
    {kind : _} (p : Job → Bool) (f : Job → Job)
    → IsValid ds js
    → (held : IsHeld js id document_id revision kind) → p held.row ≡ true
    → ((k : Job) → is_active (f k).status ≡ false)
    → count_where (active_of document_id) (update_where p f js) ≡ 0
unfolding active_of
emptied ds js id document_id revision p f valid held hit inactive = count_zero _ _ (
    All-update _ _ p f js (λ k _ _. ground (arith, inactive k))
      (λ k only miss. idle k only miss (Bool-cases (active_of document_id k)))
      (count_one (active_of document_id) held.row js (valid.single document_id) held.among (
        active_of_intro document_id held.row
          (rw held.same_document ((text_eq_iff document_id document_id).1 refl))
          (processing-active _ held.processing))))
  where
    idle :
        (k : Job)
        → (active_of document_id k ≡ true → k ≡ held.row)
        → p k ≡ false
        → (active_of document_id k ≡ true) ⊎ (active_of document_id k ≡ false)
        → active_of document_id k ≡ false
    idle k only miss (inl e) = absurd (cc (only e, miss, hit))
    idle k only miss (inr e) = e

module _ {V : Type 0} (now : ℕ) (job_id : Text) (job : ClaimedJob) (db : Db V)
    (valid : IsValidDb db) (held : Holds db.jobs (document_claim job)) where
  row_held : is_held job.id job.revision held.row ≡ true
  unfolding is_held job_is
  row_held =
      ground
        (arith, held.same_id, held.same_revision, held.processing, text_eq_iff held.row.id job.id)

  finished-IsValid :
      (status : DocumentState)
      → IsValid
          (set_document_status now job.document_id job.revision status db.documents)
          (update_where (is_held job.id job.revision) (finish_job now) db.jobs)
  unfolding finish_job is_active
  finished-IsValid status =
      focus_held db.documents valid held _ (is_held_id _ _) (finish_job now) status row_held
        (λ k. refl) (λ k. refl) (λ k. refl) (λ h. cc) now

  scheduled-IsValid :
      exists_where
          (job_conflicts (new_job now job_id job.document_id memory job.revision))
          (update_where (is_held job.id job.revision) (finish_job now) db.jobs)
        ≡ false
      → IsValid (set_document_status now job.document_id job.revision indexing db.documents) (
          update_where (is_held job.id job.revision) (finish_job now) db.jobs
          ++ new_job now job_id job.document_id memory job.revision ∷ [])
  unfolding new_job is_active finish_job
  scheduled-IsValid free =
      snoc-IsValid _ _ (finished-IsValid indexing)
        (new_job now job_id job.document_id memory job.revision)
        (emptied db.documents db.jobs job.id job.document_id job.revision _ (finish_job now) valid
          held row_held (λ k. refl))
        (All-map _ _ (λ k h. conflict-new _ k h) _ (exists-false _ _ free))
        (λ _.
          state_of-set_self now job.document_id job.revision indexing db.documents
            (document_of_held job db valid held))

  finish-IsValid :
      (schedule : Bool) → OnOk IsValidDb (finish_publication now job_id job schedule db)
  unfolding finish_publication
  finish-IsValid false = finished-IsValid done
  finish-IsValid true =
      scheduled (Bool-cases (exists_where (job_conflicts memory_job) finished_jobs))
    where
      memory_job : Job
      memory_job = new_job now job_id job.document_id memory job.revision

      finished_jobs : List Job
      finished_jobs = update_where (is_held job.id job.revision) (finish_job now) db.jobs

      scheduled :
          (exists_where (job_conflicts memory_job) finished_jobs ≡ true)
            ⊎ (exists_where (job_conflicts memory_job) finished_jobs ≡ false)
          → OnOk IsValidDb (finish_publication now job_id job true db)
      scheduled (inl e) = unfold insert_job in rw e tt
      scheduled (inr e) = unfold insert_job in rw e (scheduled-IsValid e)

module _ {V : Type 0} (now : ℕ) (job_id : Text) (job : ClaimedJob) (db : Db V) (c : Claim)
    (other : c.id ≢ job.id) (fresh : c.id ≢ job_id) (good : IsGoodDb db c) where
  finished-IsGood :
      (status : DocumentState)
      → IsGood
          (set_document_status now job.document_id job.revision status db.documents)
          (update_where (is_held job.id job.revision) (finish_job now) db.jobs)
          c
  unfolding finish_job
  finished-IsGood status =
      IsGood-other db.documents _ db.jobs c job.id _ (finish_job now) other
        (λ k hit. is_held_id _ _ k hit) (λ k. refl) (λ k. refl) (λ k. refl)
        (IsPast-set now job.document_id job.revision status db.documents c.document_id c.revision)
        good

  finish-IsGood :
      (schedule : Bool)
      → OnOk (λ db'. IsGoodDb db' c) (finish_publication now job_id job schedule db)
  unfolding finish_publication
  finish-IsGood false = finished-IsGood done
  finish-IsGood true =
      scheduled (Bool-cases (exists_where (job_conflicts memory_job) finished_jobs))
    where
      memory_job : Job
      memory_job = new_job now job_id job.document_id memory job.revision

      finished_jobs : List Job
      finished_jobs = update_where (is_held job.id job.revision) (finish_job now) db.jobs

      scheduled :
          (exists_where (job_conflicts memory_job) finished_jobs ≡ true)
            ⊎ (exists_where (job_conflicts memory_job) finished_jobs ≡ false)
          → OnOk (λ db'. IsGoodDb db' c) (finish_publication now job_id job true db)
      scheduled (inl e) = unfold insert_job in rw e tt
      scheduled (inr e) =
          unfold insert_job new_job in
          rw e (
            IsGood-append _ _ finished_jobs memory_job c fresh (λ past. past)
              (finished-IsGood indexing))

module _ (f : Float32) {V : Type 0} (now : ℕ) (chunk_ids : ℕ → Text) (job_id : Text)
    (job : ClaimedJob) (db : Db V) where
  -- A publication changes nothing, or finishes with the document's chunks replaced.
  publish_cases :
      (P : Db V → Type 0) (chunks : List (EmbeddedChunk f.F)) (model : Option (Text × ℕ))
      (schedule : Bool)
      → P db
      → ((x : Db V)
          → x.documents ≡ db.documents
          → x.jobs ≡ db.jobs
          → revision_is (revision_of db.documents job.document_id) job.revision ≡ true
          → OnOk P (finish_publication now job_id job schedule x))
      → P (publish_job f now chunk_ids job_id job chunks model schedule db).1
  unfolding publish_job
  publish_cases P chunks model schedule same finish =
      elim (Bool-cases (revision_is (revision_of db.documents job.document_id) job.revision)) [
        | inr stale ↦ rw (stale, publish_job) same
        | inl current ↦ elim (Result-cases published) [
          | inr (e, failed) ↦ rw (current, failed, publish_job) same
          | inl (tables, wrote) ↦
              let x : Db V = record db { chunks = tables.0; embeddings = tables.1 } in
              rw (current, wrote, publish_job)
                (settled (finish_publication now job_id job schedule x)
                  (finish x refl refl current))
        ]
      ]
    where
      cleared : Db V
      cleared = delete_chunks job.document_id db

      published : Result StorageError (List Chunk × List ChunkEmbedding)
      published =
          publish_chunks f chunk_ids job.document_id model 0 chunks
            (existing_ids job.document_id db.chunks []) (cleared.chunks, cleared.embeddings)

      settled :
          (r : Result StorageError (Db V))
          → OnOk P r
          → P (
              (let out : Result StorageError (Unit {0}) × Db V = elim r [
                | err e ↦ (err e, db)
                | ok db' ↦ (ok tt, db')
              ] in
                out).1)
      settled (ok db') h = h
      settled (err e) h = same

  module _ (valid : IsValidDb db) (good : IsGoodDb db (document_claim job)) where
    -- A publication keeps the database valid, whatever comes of it.
    pub publish_job-IsValid :
        (chunks : List (EmbeddedChunk f.F)) (model : Option (Text × ℕ)) (schedule : Bool)
        → IsValidDb (publish_job f now chunk_ids job_id job chunks model schedule db).1
    publish_job-IsValid chunks model schedule =
        publish_cases IsValidDb chunks model schedule valid (λ x same_documents same_jobs current.
          elim good [
            | inl held ↦
                finish-IsValid now job_id job x (rw (same_documents, same_jobs) valid)
                  (rw same_jobs held) schedule
            | inr gone ↦
                absurd (current_past db.documents job.document_id job.revision current gone.past)
          ])

  module _ (c : Claim) (other : c.id ≢ job.id) (fresh : c.id ≢ job_id) (good : IsGoodDb db c) where
    pub publish_job-IsGood :
        (chunks : List (EmbeddedChunk f.F)) (model : Option (Text × ℕ)) (schedule : Bool)
        → IsGoodDb (publish_job f now chunk_ids job_id job chunks model schedule db).1 c
    publish_job-IsGood chunks model schedule =
        publish_cases (λ db'. IsGoodDb db' c) chunks model schedule good
          (λ x same_documents same_jobs current.
            finish-IsGood now job_id job x c other fresh (rw (same_documents, same_jobs) good)
              schedule)
