-- ===== src/Server/Indexing/Ended.antt =====
-- A pass over a claimed job ends it, whatever the chunker and the model give.
use supermemory_rs.Prelude.{
  ℕ, Text, Bool, true, false, ◌≡◌, ◌≢◌, refl, sym, ap, ◌⊎◌, All, All-map, inl, inr, List, [], ◌∷◌,
  Option, none, some, Result, ok, err, map, arith, Bool-cases, Option-cases,
}
use mathlib.Core.Path.{subst}
use supermemory_rs.MemoryEngine.Chunking.Markdown.{chunk_limit, default_chunk_size}
use supermemory_rs.MemoryEngine.Chunking.Limit.{chunk_text-IsChunk}
use supermemory_rs.Storage.State.{DocumentState, extracting, chunking, embedding, indexing}
use supermemory_rs.Storage.Tables.{
  ClaimedJob, Document, Job, Db, StorageError, stale_revision, document, is_active, revision_of,
}
use supermemory_rs.Storage.Rows.{expected_stage, document_is, revision_is}
use supermemory_rs.Storage.DocumentJobs.{
  mark_job_stage, fail_job, is_empty_document, delete_empty_document,
}
use supermemory_rs.Storage.Publish.{
  Float32, EmbeddedChunk, publish_job, complete_job, complete_embedded_job, validate_chunks,
  complete_embedded_job_with_memory_extraction,
}
use supermemory_rs.Storage.Sql.{exists_where}
use supermemory_rs.Storage.Sql.Laws.{All-update, zero-All}
use supermemory_rs.Storage.Sql.Keys.{All-both}
use supermemory_rs.Storage.Invariant.{state_of, shown, IsCurrent, IsValidDb}
use supermemory_rs.Storage.Invariant.Held.{IsHeld}
use supermemory_rs.Storage.Invariant.Stages.{mark_job_stage-progress}
use supermemory_rs.Storage.Protocol.Deletes.{delete_empty-IsValid}
use supermemory_rs.Storage.Protocol.Publish.{publish_job-IsValid, current_past}
use supermemory_rs.Storage.Protocol.Stages.{gone_stage, fail_job-IsValid}
use supermemory_rs.Storage.Protocol.Claim.{document_claim, IsPast, IsGone, gone_count}
use supermemory_rs.Server.Indexing.Model.{
  storage, embedding_executor, dimensions, Coordinator, Outcome, and_then, failing, publish,
  embedded, index_chunks, chunked, process,
}
use supermemory_rs.Server.Indexing.Settled.{
  IsSettled, fail_job-IsSettled, publish_job-IsSettled, delete_empty-IsSettled,
}

-- The worker's row is held at the stage.
abbrev pub IsAt : {V : Type 0} → ClaimedJob → DocumentState → Db V → Type 0
IsAt job stage db =
    (held : IsHeld db.jobs job.id job.document_id job.revision document) × (held.row.status ≡ stage)

abbrev pub HasMovedOn : {V : Type 0} → ClaimedJob → Db V → Type 0
HasMovedOn job db = IsGone db.documents db.jobs (document_claim job)

-- The worker's row is at the stage, or its document has moved on or is deleted.
abbrev pub OnCourse : {V : Type 0} → ClaimedJob → DocumentState → Db V → Type 0
OnCourse job stage db = IsAt job stage db ⊎ HasMovedOn job db

-- What others do while the worker waits: the database stays valid, and the worker's row at its stage,
-- unless its document moves on.
abbrev pub LeavesClaim : {V : Type 0} → ClaimedJob → (ℕ → Db V → Db V) → Type 0
LeavesClaim {V} job others =
    (i : ℕ) (stage : DocumentState) (db : Db V)
    → IsValidDb db
    → OnCourse job stage db
    → IsValidDb (others i db) × OnCourse job stage (others i db)

-- The stage from which the chunks are published.
abbrev pub last_stage : {F E : Type 0} → Coordinator F E → DocumentState
last_stage coordinator = elim coordinator.embeddings [ none ↦ chunking | some embed ↦ indexing ]

-- The pass succeeded or the model failed, and the job is settled; or the storage refused, and the
-- document has moved on, or it refused the publication and the worker still holds the job.
abbrev pub IsEnded : {V E F : Type 0} → Coordinator F E → ClaimedJob → Outcome V E → Type 0
IsEnded {V} {E} coordinator job out =
    IsValidDb out.1
    × (((out.0 ≡ ok tt) × IsSettled job.id out.1.jobs)
        ⊎ ((e : E) × (out.0 ≡ err (embedding_executor e)) × IsSettled job.id out.1.jobs)
        ⊎ ((e : StorageError) × (out.0 ≡ err (storage e))
            × OnCourse job (last_stage coordinator) out.1))

abbrev revision_in : Option (ℕ × DocumentState) → ℕ
revision_in none = 0
revision_in (some (r, s)) = r

-- No row of a job whose document has moved on is active.
pub moved-IsSettled :
    {V : Type 0} (job : ClaimedJob) (db : Db V)
    → IsValidDb db
    → HasMovedOn job db
    → IsSettled job.id db.jobs
moved-IsSettled job db valid gone =
    All-map _ _ (λ k both same. idle k (both.0 same) both.1) db.jobs
      (All-both _ _ db.jobs gone.matches valid.current)
  where
    idle :
        (k : Job)
        → (k.document_id ≡ job.document_id) × (k.revision ≡ job.revision)
        → IsCurrent db.documents k
        → is_active k.status ≡ false
    idle k own current = elim (Bool-cases (is_active k.status)) [
      | inr e ↦ e
      | inl e ↦ absurd (
          outrun (state_of db.documents job.document_id) gone.past (
            subst (λ id. state_of db.documents id ≡ some (k.revision, shown k.kind k.status)) own.0
              (current e)))
    ]
      where
        outrun :
            (o : Option (ℕ × DocumentState))
            → IsPast o job.revision
            → o ≡ some (k.revision, shown k.kind k.status)
            → ⊥
        outrun none past e = cc e
        outrun (some (r, s)) past e =
            let same : r ≡ k.revision = ap revision_in e in omega (arith, past, same, own.1)

-- What a publication may give.
abbrev Published : {V : Type 0} → ClaimedJob → Db V → Result StorageError (Unit {0}) × Db V → Type 0
Published {V} job db r =
    ((e : StorageError) × (r ≡ (err e, db)))
    ⊎ ((db' : Db V) × (r ≡ (ok tt, db')) × IsValidDb db' × IsSettled job.id db'.jobs)

-- A publication for a document that has moved on is refused.
moved_publish :
    {V : Type 0} (f : Float32) (now : ℕ) (chunk_ids : ℕ → Text) (job_id : Text) (job : ClaimedJob)
    (db : Db V)
    → HasMovedOn job db
    → (chunks : List (EmbeddedChunk f.F)) (model : Option (Text × ℕ)) (schedule : Bool)
    → (e : StorageError) × (publish_job f now chunk_ids job_id job chunks model schedule db
        ≡ (err e, db))
unfolding publish_job
moved_publish f now chunk_ids job_id job db gone chunks model schedule =
    elim (Bool-cases (revision_is (revision_of db.documents job.document_id) job.revision)) [
      | inr stale ↦ (
        stale_revision job.document_id job.revision (revision_of db.documents job.document_id),
        rw (stale, publish_job) refl,
      )
      | inl current ↦
          absurd (current_past db.documents job.document_id job.revision current gone.past)
    ]

no_row :
    {V : Type 0} (job : ClaimedJob) (ds : List (Document V))
    → All (λ d. document_is job.document_id job.revision d ≡ false) ds
    → exists_where (is_empty_document job) ds ≡ false
unfolding exists_where is_empty_document
no_row job [] h = refl
no_row job (d ∷ ds) h = ground (arith, h.0, no_row job ds h.1)

moved_empty :
    {V : Type 0} (job : ClaimedJob) (db : Db V)
    → IsValidDb db
    → HasMovedOn job db
    → delete_empty_document job db ≡ (ok tt, db)
unfolding delete_empty_document
moved_empty job db valid gone =
    rw
      (no_row job db.documents (
        zero-All _ db.documents (
          gone_count job.document_id job.revision db.documents valid.documents_distinct gone.past)))
      refl

module _ {V E : Type 0} (f : Float32) (now : ℕ → ℕ) (chunk_ids : ℕ → Text) (job_id : Text)
    (coordinator : Coordinator f.F E) (job : ClaimedJob) (fresh : job_id ≢ job.id)
    (others : ℕ → Db V → Db V) (leaves : LeavesClaim job others) where
  module _ (db : Db V) (valid : IsValidDb db) where
    ends :
        OnCourse job (last_stage coordinator) db
        → (r : Result StorageError (Unit {0}) × Db V) → Published job db r
        → IsEnded {V = V} {E = E} coordinator job (and_then r (λ done. (ok tt, done)))
    unfolding and_then
    ends course r (inl (e, same)) = rw same (valid, inr (inr (e, refl, course)))
    ends course r (inr (db', same, valid', settled)) = rw same (valid', inl (refl, settled))

    publish_job-Published :
        (stage : DocumentState) (at_time : ℕ) (chunks : List (EmbeddedChunk f.F))
        (model : Option (Text × ℕ)) (schedule : Bool)
        → OnCourse job stage db
        → Published job db (publish_job f at_time chunk_ids job_id job chunks model schedule db)
    publish_job-Published stage at_time chunks model schedule (inl (held, _)) =
        elim (publish_job-IsSettled job db valid held f at_time chunk_ids job_id chunks model
          schedule fresh) [
            | inl refused ↦ inl refused
            | inr (db', same, settled) ↦ inr (
              db',
              same,
              rw same at (
                  publish_job-IsValid f at_time chunk_ids job_id job db valid (inl held) chunks
                    model schedule),
              settled,
            )
          ]
    publish_job-Published stage at_time chunks model schedule (inr gone) =
        inl (moved_publish f at_time chunk_ids job_id job db gone chunks model schedule)

    failed-IsEnded :
        (stage : DocumentState) (at_time : ℕ) (message : Text)
        → OnCourse job stage db
        → IsValidDb (fail_job at_time job message db).1
          × IsSettled job.id (fail_job at_time job message db).1.jobs
    unfolding fail_job is_active
    failed-IsEnded stage at_time message (inl (held, _)) = (
      fail_job-IsValid at_time job db valid message (inl held),
      fail_job-IsSettled job db valid held at_time message,
    )
    failed-IsEnded stage at_time message (inr gone) = (
      fail_job-IsValid at_time job db valid message (inr gone),
      All-update _ _ _ _ db.jobs (λ k idle _ _. refl) (λ k idle _. idle)
          (moved-IsSettled job db valid gone),
    )

  publish-Published :
      (stage : DocumentState) (vectors : List (EmbeddedChunk f.F)) (db : Db V)
      → IsValidDb (others 3 db)
      → OnCourse job stage (others 3 db)
      → Published job
          (others 3 db)
          (publish f now chunk_ids job_id coordinator job others vectors db)
  unfolding publish complete_embedded_job complete_embedded_job_with_memory_extraction
  publish-Published stage vectors db valid course = elim (Bool-cases coordinator.has_provider) [
    | inl provided ↦ elim (Option-cases (validate_chunks f vectors dimensions)) [
      | inl fine ↦
          rw (provided, fine)
            (publish_job-Published (others 3 db) valid stage (now 3) vectors
              (some (coordinator.model_id, dimensions)) true course)
      | inr (e, bad) ↦ rw (provided, bad) (inl (e, refl))
    ]
    | inr alone ↦ elim (Option-cases (validate_chunks f vectors dimensions)) [
      | inl fine ↦
          rw (alone, fine)
            (publish_job-Published (others 3 db) valid stage (now 3) vectors
              (some (coordinator.model_id, dimensions)) false course)
      | inr (e, bad) ↦ rw (alone, bad) (inl (e, refl))
    ]
  ]

  failing-IsEnded :
      (stage : DocumentState) (db : Db V) (index : ℕ) (message : Text) (e : E)
      → IsValidDb db
      → OnCourse job stage db
      → IsEnded {V = V} {E = E} coordinator job (
          failing f now chunk_ids job_id coordinator job others index message
            (embedding_executor e)
            db)
  unfolding failing and_then fail_job
  failing-IsEnded stage db index message e valid course =
      let (valid', course') = leaves index stage db valid course in
      let (ended, settled) =
        failed-IsEnded (others index db) valid' stage (now index) message course' in
      (ended, inr (inl (e, refl, settled)))

  -- A job on course moves on, and what follows ends it.
  moves :
      (index : ℕ) (stage expected : DocumentState) (db : Db V) (rest : Db V → Outcome V E)
      → expected_stage stage ≡ some expected
      → IsValidDb db
      → OnCourse job expected db
      → ((db' : Db V) → IsValidDb db' → OnCourse job stage db' → IsEnded coordinator job (rest db'))
      → IsEnded coordinator job
          (and_then (mark_job_stage (now index) job stage (others index db)) rest)
  unfolding and_then
  moves index stage expected db rest edge valid course ends_after =
      let (valid', course') = leaves index expected db valid course in
      elim course' [
        | inl (held, before) ↦
            elim (mark_job_stage-progress (now index) job (others index db) stage expected edge
              valid' held) [
                | inl (_, db', same, valid'', (after, status), _) ↦
                    rw same (ends_after db' valid'' (inl (after, status)))
                | inr (away, _) ↦ absurd (away before)
              ]
        | inr gone ↦
            unmoved gone valid' (mark_job_stage (now index) job stage (others index db))
              (gone_stage (now index) job (others index db) valid' stage gone)
      ]
    where
      unmoved :
          HasMovedOn job (others index db)
          → IsValidDb (others index db)
          → (r : Result StorageError (Unit {0}) × Db V) → r.1 ≡ others index db
          → IsEnded coordinator job (and_then r rest)
      unmoved gone valid' (ok u, d) same =
          ends_after d (subst (λ x. IsValidDb x) (sym same) valid')
            (inr (subst (λ x. HasMovedOn job x) (sym same) gone))
      unmoved gone valid' (err e, d) same = (
        subst (λ x. IsValidDb x) (sym same) valid',
        inr (inr (e, refl, inr (subst (λ x. HasMovedOn job x) (sym same) gone))),
      )

  embedded-IsEnded :
      (given : Result E (List (EmbeddedChunk f.F))) (db : Db V)
      → last_stage coordinator ≡ indexing
      → IsValidDb db
      → OnCourse job embedding db
      → IsEnded coordinator job (embedded f now chunk_ids job_id coordinator job others given db)
  unfolding embedded
  embedded-IsEnded (err e) db last valid course =
      failing-IsEnded embedding db 2 (coordinator.embedding_text e) e valid course
  embedded-IsEnded (ok vectors) db last valid course =
      moves 2 indexing embedding db _ (unfold expected_stage in refl) valid course
        (λ db' valid' course'.
          let (valid'', course'') = leaves 3 indexing db' valid' course' in
          ends (others 3 db') valid''
            (subst (λ stage. OnCourse job stage (others 3 db')) (sym last) course'') _
            (publish-Published indexing vectors db' valid'' course''))

  index_chunks-IsEnded :
      (embeddings : Option (List Text → Result E (List (EmbeddedChunk f.F)))) (chunks : List Text)
      (db : Db V)
      → coordinator.embeddings ≡ embeddings
      → IsValidDb db
      → OnCourse job chunking db
      → IsEnded coordinator job
          (index_chunks f now chunk_ids job_id coordinator job others embeddings chunks db)
  unfolding index_chunks complete_job
  index_chunks-IsEnded none chunks db same valid course =
      let (valid', course') = leaves 1 chunking db valid course in
      ends (others 1 db) valid' (rw same course') _ (
        publish_job-Published (others 1 db) valid' chunking (now 1)
          (map (λ content. record { content = content; vector = [] }) chunks) none false course')
  index_chunks-IsEnded (some embed) chunks db same valid course =
      moves 1 embedding chunking db _ (unfold expected_stage in refl) valid course
        (λ db' valid' course'. embedded-IsEnded (embed chunks) db' (rw same refl) valid' course')

  deleted-IsEnded :
      (db : Db V)
      → IsValidDb db
      → OnCourse job chunking db
      → IsEnded {V = V} {E = E} coordinator job
          (and_then (delete_empty_document job db) (λ done. (ok tt, done)))
  unfolding and_then delete_empty_document
  deleted-IsEnded db valid (inl (held, status)) =
      let deleted = delete_empty-IsSettled job db valid held status in
      rw deleted.1 (rw deleted.1 at (delete_empty-IsValid job db valid), inl (refl, deleted.2))
  deleted-IsEnded db valid (inr gone) =
      rw (moved_empty job db valid gone) (valid, inl (refl, moved-IsSettled job db valid gone))

  chunked-IsEnded :
      (chunks : List Text) (db : Db V)
      → IsValidDb db
      → OnCourse job chunking db
      → IsEnded coordinator job
          (chunked f now chunk_ids job_id coordinator job others (ok (some chunks)) db)
  unfolding chunked
  chunked-IsEnded [] db valid course =
      let (valid', course') = leaves 1 chunking db valid course in
      deleted-IsEnded (others 1 db) valid' course'
  chunked-IsEnded (c ∷ cs) db valid course =
      index_chunks-IsEnded coordinator.embeddings (c ∷ cs) db refl valid course

  -- Whatever others do before each operation of a pass over a claimed job, as long as the database
  -- stays valid and the job's row at its stage unless its document moves on or is deleted: the pass
  -- leaves a valid database, and ends in one of these ways. It succeeds, or the embedding fails with
  -- its error, and in both no row of the job is active any more; or the storage refuses an operation
  -- with an error, and then the document has moved on or is deleted, or it refused the publication and
  -- the worker's row is still held at the stage before it. It never ends in an error of chunking.
  pub process-IsEnded :
      (db : Db V)
      → IsValidDb db
      → OnCourse job extracting db
      → IsEnded coordinator job (process f now chunk_ids job_id coordinator job others db)
  unfolding process
  process-IsEnded db valid course =
      let given =
        chunk_text-IsChunk job.content none default_chunk_size (unfold chunk_limit in refl)
          (omega arith) in
      moves 0 chunking extracting db _ (unfold expected_stage in refl) valid course
        (λ db' valid' course'.
          subst
            (λ r.
              IsEnded coordinator job (chunked f now chunk_ids job_id coordinator job others r db'))
            (sym given.1) (chunked-IsEnded given.0 db' valid' course'))
