-- ===== src/Storage/Invariant/Stages.antt =====
-- `mark_job_stage` and `fail_job` on a held job.
use supermemory_rs.Prelude.{
  ℕ, Text, text_eq, text_eq_iff, true, false, ◌≡◌, ◌≢◌, refl, ◌⊎◌, ◌↔◌, inl, inr, List, [], ◌∷◌,
  none, some, ok, err, arith, Bool-cases,
}
use supermemory_rs.Storage.State.{DocumentState, chunking, embedding, indexing, failed}
use supermemory_rs.Storage.Sql.{count_where, first_where}
use supermemory_rs.Storage.Sql.Laws.{Among, All-among, Among-update, count_zero}
use supermemory_rs.Storage.Sql.Keys.{count_key}
use supermemory_rs.Storage.Tables.{
  Document, document, Job, Db, stale_revision, ClaimedJob, is_processing, status_eq, find_document,
}
use supermemory_rs.Storage.Rows.{document_is, job_is, job_at, expected_stage}
use supermemory_rs.Storage.DocumentJobs.{stage_rows, mark_job_stage, fail_job}
use supermemory_rs.Storage.Invariant.{state_of, IsValidDb}
use supermemory_rs.Storage.Invariant.Updates.{state_of-set_self}
use supermemory_rs.Storage.State.{transition}
use supermemory_rs.Storage.Invariant.Held.{IsHeld, processing-active, held_or_none, focus_held}

stage_matches :
    (stage : DocumentState) {expected : DocumentState}
    → expected_stage stage ≡ some expected
    → (is_processing stage ≡ true) × (transition expected stage ≡ ok stage)
unfolding expected_stage is_processing transition
stage_matches chunking h = ground arith
stage_matches embedding h = ground arith
stage_matches indexing h = ground arith
stage_matches _ h = cc

-- The row that `state_of` reads.
pub state_of-Among :
    {V : Type 0} (ds : List (Document V)) (id : Text) (r : ℕ) (s : DocumentState)
    → state_of ds id ≡ some (r, s)
    → (d : Document V) × Among d ds × (text_eq d.id id ≡ true) × (d.revision ≡ r) × (d.status ≡ s)
unfolding state_of find_document first_where
state_of-Among [] id r s h = cc
state_of-Among (x ∷ ds) id r s h = elim (Bool-cases (text_eq x.id id)) [
  | inl e ↦ (x, inl refl, e, ground arith, ground arith)
  | inr e ↦
      let (d, m, same, rev, status) = state_of-Among ds id r s (ground arith) in
      (d, inr m, same, rev, status)
]

pub document_is_id :
    {V : Type 0} (id : Text) (revision : ℕ) (d : Document V)
    → document_is id revision d ≡ true
    → text_eq d.id id ≡ true
unfolding document_is
document_is_id id revision d h = ground arith

pub job_at_id :
    (id : Text) (revision : ℕ) (status : DocumentState) (j : Job)
    → job_at id revision status j ≡ true
    → text_eq j.id id ≡ true
unfolding job_at job_is
job_at_id id revision status j h = ground arith

pub job_is_id :
    (id : Text) (revision : ℕ) (j : Job) → job_is id revision j ≡ true → text_eq j.id id ≡ true
unfolding job_is
job_is_id id revision j h = ground arith

pub status_eq_iff : (s t : DocumentState) → (status_eq s t ≡ true) ↔ (s ≡ t)
unfolding status_eq
status_eq_iff s t = ground arith

module _ {V : Type 0} (job : ClaimedJob) (db : Db V) (valid : IsValidDb db)
    (held : IsHeld db.jobs job.id job.document_id job.revision document) where
  -- The document of a held job stands at its revision, and shows the job's status.
  pub document_of_held :
      state_of db.documents job.document_id ≡ some (job.revision, held.row.status)
  document_of_held =
      let current =
        All-among _ held.row db.jobs valid.current held.among
          (processing-active _ held.processing) in
      rw held.same_kind at (rw (held.same_document, held.same_revision) at current)

  document_there : count_where (document_is job.document_id job.revision) db.documents ≡ 1
  document_there =
      let (d, among, same, revision, status) = state_of-Among _ _ _ _ document_of_held in
      count_key (λ d. d.id) _ d db.documents valid.documents_distinct among
        (unfold document_is in ground arith)
        (λ k hit. rw ((text_eq_iff _ _).0 same) (document_is_id _ _ k hit))

  row_at :
      (status : DocumentState)
      → held.row.status ≡ status
      → job_at job.id job.revision status held.row ≡ true
  unfolding job_at job_is
  row_at status same = ground (
    arith,
    held.same_id,
    held.same_revision,
    text_eq_iff held.row.id job.id,
    status_eq_iff held.row.status status,
  )

  job_there :
      (status : DocumentState)
      → held.row.status ≡ status
      → count_where (job_at job.id job.revision status) db.jobs ≡ 1
  job_there status same =
      count_key (λ j. j.id) _ held.row db.jobs valid.distinct held.among (row_at status same)
        (λ k hit. rw held.same_id (job_at_id _ _ _ k hit))

  row_hit : job_is job.id job.revision held.row ≡ true
  unfolding job_is
  row_hit = ground (arith, held.same_id, held.same_revision, text_eq_iff held.row.id job.id)

  row_off :
      (status : DocumentState)
      → status_eq held.row.status status ≡ false
      → job_at job.id job.revision status held.row ≡ false
  unfolding job_at
  row_off status e = ground arith

  job_away :
      (status : DocumentState)
      → status_eq held.row.status status ≡ false
      → count_where (job_at job.id job.revision status) db.jobs ≡ 0
  job_away status e =
      elim (held_or_none db.documents valid held (job_at job.id job.revision status)
        (job_at_id _ _ _)) [
          | inl hit ↦ absurd (cc (hit, row_off status e))
          | inr none_hit ↦ count_zero _ db.jobs none_hit
        ]

  -- The rows after a stage: the job is still held, at the new stage.
  staged_held :
      (now : ℕ) (expected stage : DocumentState)
      → held.row.status ≡ expected
      → is_processing stage ≡ true
      → (after : IsHeld
          (stage_rows now job expected stage db).jobs
          job.id
          job.document_id
          job.revision
          document)
        × (after.row.status ≡ stage)
  unfolding stage_rows
  staged_held now expected stage same processing = (
    record {
      row = record (held.row) { status = stage; updated_at = now };
      among = Among-update _ _ held.row db.jobs held.among (row_at expected same);
      same_id = held.same_id;
      same_document = held.same_document;
      same_revision = held.same_revision;
      same_kind = held.same_kind;
      processing = processing;
    },
    refl,
  )

  staged-IsValid :
      (now : ℕ) (expected stage : DocumentState)
      → held.row.status ≡ expected
      → IsValidDb (stage_rows now job expected stage db)
  unfolding stage_rows
  staged-IsValid now expected stage same =
      focus_held db.documents valid held _ (job_at_id _ _ _) _ stage (row_at expected same)
        (λ k. refl) (λ k. refl) (λ k. refl) (λ _. rw held.same_kind) now

-- A worker that holds a job can advance it: from the stage before, `mark_job_stage` succeeds on a
-- valid database, by an edge that `transition` permits, and in the valid database after it the
-- worker still holds the job, at the new stage. At any other stage the call is refused as stale, and
-- changes nothing.
pub mark_job_stage-progress :
    {V : Type 0} (now : ℕ) (job : ClaimedJob) (db : Db V) (stage expected : DocumentState)
    → expected_stage stage ≡ some expected
    → IsValidDb db
    → (held : IsHeld db.jobs job.id job.document_id job.revision document)
    → ((held.row.status ≡ expected)
        × (db' : Db V) × (mark_job_stage now job stage db ≡ (ok tt, db'))
        × IsValidDb db'
        × ((after : IsHeld db'.jobs job.id job.document_id job.revision document)
            × (after.row.status ≡ stage))
        × (transition expected stage ≡ ok stage))
      ⊎ ((held.row.status ≢ expected)
          × (mark_job_stage now job stage db
              ≡ (err (stale_revision job.document_id job.revision none), db)))
unfolding mark_job_stage
mark_job_stage-progress now job db stage expected edge valid held =
    elim (Bool-cases (status_eq held.row.status expected)) [
      | inl e ↦
          let same = (status_eq_iff held.row.status expected).0 e in
          inl (
            same,
            stage_rows now job expected stage db,
            rw (edge, mark_job_stage)
                (rw (job_there job db valid held expected same, document_there job db valid held)),
            staged-IsValid job db valid held now expected stage same,
            staged_held job db valid held now expected stage same (stage_matches stage edge).0,
            (stage_matches stage edge).1,
          )
      | inr e ↦ inr (
        λ same. cc (e, (status_eq_iff held.row.status expected).1 same),
        rw (edge, mark_job_stage) (rw (job_away job db valid held expected e)),
      )
    ]

-- Failing a held job succeeds and keeps the database valid: the job's row and its document are
-- failed, with the error on the row, and no chunk or vector changes.
pub fail_job-failed :
    {V : Type 0} (now : ℕ) (job : ClaimedJob) (error : Text) (db : Db V)
    → IsValidDb db
    → IsHeld db.jobs job.id job.document_id job.revision document
    → (db' : Db V) × (fail_job now job error db ≡ (ok tt, db'))
      × IsValidDb db'
      × (state_of db'.documents job.document_id ≡ some (job.revision, failed))
      × ((row : Job) × Among row db'.jobs
          × (row.id ≡ job.id)
          × (row.status ≡ failed)
          × (row.last_error ≡ some error))
      × (db'.chunks ≡ db.chunks)
      × (db'.embeddings ≡ db.embeddings)
unfolding fail_job
fail_job-failed now job error db valid held = (
  (fail_job now job error db).1,
  refl,
  focus_held db.documents valid held _ (job_is_id _ _) _ failed (row_hit job db valid held)
      (λ k. refl) (λ k. refl) (λ k. refl) (λ h. cc) now,
  state_of-set_self now job.document_id job.revision failed db.documents
      (document_of_held job db valid held),
  (
    record (held.row) { status = failed; last_error = some error; updated_at = now },
    Among-update _ _ held.row db.jobs held.among (row_hit job db valid held),
    held.same_id,
    refl,
    refl,
  ),
  refl,
  refl,
)
