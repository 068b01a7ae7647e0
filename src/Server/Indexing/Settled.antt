-- ===== src/Server/Indexing/Settled.antt =====
-- The operations that end a job leave no row of it active.
use supermemory_rs.Prelude.{
  ℕ, Text, text_eq, text_eq_iff, Bool, true, false, ◌≡◌, ◌≢◌, refl, ap, ◌⊎◌, inl, inr, List, [],
  ◌∷◌, Option, Result, ok, err, OnOk, All, All-append, arith, Bool-cases, Result-cases,
}
use supermemory_rs.Storage.State.{chunking}
use supermemory_rs.Storage.Sql.{update_where, delete_where, exists_where}
use supermemory_rs.Storage.Sql.Laws.{All-update, Among-exists}
use supermemory_rs.Storage.Sql.Keys.{Distinct-key}
use supermemory_rs.Storage.Tables.{
  ClaimedJob, Job, Db, Chunk, ChunkEmbedding, StorageError, stale_revision, document, memory,
  is_active, status_eq, revision_of, job_conflicts,
}
use supermemory_rs.Storage.Rows.{
  job_is, insert_job, new_job, delete_chunks, revision_is, document_is, cascade_document,
}
use supermemory_rs.Storage.DocumentJobs.{fail_job, is_empty_document, delete_empty_document}
use supermemory_rs.Storage.Publish.{
  Float32, EmbeddedChunk, is_held, finish_job, finish_publication, publish_chunks, existing_ids,
  publish_job,
}
use supermemory_rs.Storage.Invariant.{IsValidDb}
use supermemory_rs.Storage.Invariant.Held.{IsHeld}
use supermemory_rs.Storage.Invariant.Stages.{state_of-Among, document_of_held}

-- Every row with the job's id is done, failed or gone.
abbrev pub IsSettled : Text → List Job → Type 0
IsSettled id = All λ k. text_eq k.id id ≡ true → is_active k.status ≡ false

All-delete_miss :
    {R : Type 0} (P Q : R → Type 0) (p : R → Bool) (rs : List R)
    → ((r : R) → P r → p r ≡ false → Q r)
    → All P rs
    → All Q (delete_where p rs)
unfolding delete_where
All-delete_miss P Q p [] miss h = tt
All-delete_miss P Q p (r ∷ rs) miss h = elim (Bool-cases (p r)) [
  | inl e ↦ rw e (All-delete_miss P Q p rs miss h.1)
  | inr e ↦ rw e (miss r h.0 e, All-delete_miss P Q p rs miss h.1)
]

module _ {V : Type 0} (job : ClaimedJob) (db : Db V) (valid : IsValidDb db)
    (held : IsHeld db.jobs job.id job.document_id job.revision document) where
  own_rows : All (λ k. text_eq k.id job.id ≡ true → k ≡ held.row) db.jobs
  own_rows =
      rw (← held.same_id) (Distinct-key (λ k. k.id) held.row db.jobs valid.distinct held.among)

  -- An update that meets the held row and makes it inactive.
  updated-IsSettled :
      (p : Job → Bool) (g : Job → Job)
      → p held.row ≡ true
      → ((k : Job) → is_active (g k).status ≡ false)
      → IsSettled job.id (update_where p g db.jobs)
  updated-IsSettled p g hit idle =
      All-update _ _ p g db.jobs (λ k key _ same. idle k)
        (λ k key miss same. absurd (cc (miss, hit, ap p (key same)))) own_rows

  held_hit :
      (job_is job.id job.revision held.row ≡ true) × (is_held job.id job.revision held.row ≡ true)
  unfolding is_held job_is
  held_hit =
      ground
        (arith, held.same_id, held.same_revision, held.processing, text_eq_iff held.row.id job.id)

  pub fail_job-IsSettled :
      (now : ℕ) (message : Text) → IsSettled job.id (fail_job now job message db).1.jobs
  unfolding fail_job is_active
  fail_job-IsSettled now message = updated-IsSettled _ _ held_hit.0 (λ k. refl)

  finish-IsSettled :
      (now : ℕ) (job_id : Text) (schedule : Bool) (x : Db V)
      → x.jobs ≡ db.jobs
      → job_id ≢ job.id
      → OnOk (λ db'. IsSettled job.id db'.jobs) (finish_publication now job_id job schedule x)
  unfolding finish_publication finish_job is_active
  finish-IsSettled now job_id false x same fresh =
      rw same (updated-IsSettled _ _ held_hit.1 (λ k. refl))
  finish-IsSettled now job_id true x same fresh =
      scheduled (Bool-cases (exists_where (job_conflicts memory_job) finished_jobs))
    where
      memory_job : Job
      memory_job = new_job now job_id job.document_id memory job.revision

      finished_jobs : List Job
      finished_jobs = update_where (is_held job.id job.revision) (finish_job now) x.jobs

      fresh_row : text_eq job_id job.id ≡ true → ⊥
      fresh_row e = fresh ((text_eq_iff job_id job.id).0 e)

      scheduled :
          (exists_where (job_conflicts memory_job) finished_jobs ≡ true)
            ⊎ (exists_where (job_conflicts memory_job) finished_jobs ≡ false)
          → OnOk (λ db'. IsSettled job.id db'.jobs) (finish_publication now job_id job true x)
      scheduled (inl e) = unfold insert_job in rw e tt
      scheduled (inr e) =
          unfold insert_job new_job in
          rw e (
            rw same (
              All-append _ _ _ (updated-IsSettled _ _ held_hit.1 (λ k. refl))
                (λ own. absurd (fresh_row own), tt)))

  -- A publication settles the job, or returns an error with the database as it was.
  pub publish_job-IsSettled :
      (f : Float32) (now : ℕ) (chunk_ids : ℕ → Text) (job_id : Text)
      (chunks : List (EmbeddedChunk f.F)) (model : Option (Text × ℕ)) (schedule : Bool)
      → job_id ≢ job.id
      → ((e : StorageError) × (publish_job f now chunk_ids job_id job chunks model schedule db
            ≡ (err e, db)))
        ⊎ ((db' : Db V) × (publish_job f now chunk_ids job_id job chunks model schedule db
              ≡ (ok tt, db'))
            × IsSettled job.id db'.jobs)
  unfolding publish_job
  publish_job-IsSettled f now chunk_ids job_id chunks model schedule fresh =
      elim (Bool-cases (revision_is (revision_of db.documents job.document_id) job.revision)) [
        | inr stale ↦ inl (
          stale_revision job.document_id job.revision (revision_of db.documents job.document_id),
          rw (stale, publish_job) refl,
        )
        | inl current ↦ elim (Result-cases published) [
          | inr (e, failed) ↦ inl (e, rw (current, failed, publish_job) refl)
          | inl (tables, wrote) ↦
              let x : Db V = record db { chunks = tables.0; embeddings = tables.1 } in
              elim (Result-cases (finish_publication now job_id job schedule x)) [
                | inr (e, failed) ↦ inl (e, rw (current, wrote, failed, publish_job) refl)
                | inl (db', finished) ↦ inr (
                  db',
                  rw (current, wrote, finished, publish_job) refl,
                  rw finished at (finish-IsSettled now job_id schedule x refl fresh),
                )
              ]
        ]
      ]
    where
      cleared : Db V
      cleared = delete_chunks job.document_id db

      published : Result StorageError (List Chunk × List ChunkEmbedding)
      published =
          publish_chunks f chunk_ids job.document_id model 0 chunks
            (existing_ids job.document_id db.chunks []) (cleared.chunks, cleared.embeddings)

  -- A document at the stage of chunking is deleted with its job.
  pub delete_empty-IsSettled :
      held.row.status ≡ chunking
      → (db' : Db V) × (delete_empty_document job db ≡ (ok tt, db')) × IsSettled job.id db'.jobs
  delete_empty-IsSettled stage = (
    record (cascade_document job.document_id db) {
      documents = delete_where (is_empty_document job) db.documents;
    },
    unfold delete_empty_document in rw there refl,
    unfold cascade_document delete_chunks in
        All-delete_miss _ _ _ db.jobs
          (λ k key miss same.
            absurd
              (cc (miss, own_document, ap (λ j. text_eq j.document_id job.document_id) (key same))))
          own_rows,
  )
    where
      own_document : text_eq held.row.document_id job.document_id ≡ true
      own_document = (text_eq_iff _ _).1 held.same_document

      there : exists_where (is_empty_document job) db.documents ≡ true
      there =
          let (d, among, same, revision, status) =
            state_of-Among _ _ _ _ (document_of_held job db valid held) in
          Among-exists _ d db.documents among (
            unfold is_empty_document document_is status_eq in
            ground (arith, same, revision, status, stage))
