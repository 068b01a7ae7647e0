-- ===== src/Storage/Protocol/Stages.antt =====
-- `mark_job_stage` and `fail_job` of crates/storage/src/document_jobs.rs under any good claim.
use supermemory_rs.Prelude.{
  ℕ, Text, ◌≡◌, ◌≢◌, refl, inl, inr, ◌&&◌, ◌==◌, arith, Bool-cases, Option-cases, All-map,
}
use supermemory_rs.Storage.State.{DocumentState, failed}
use supermemory_rs.Storage.Sql.{count_where}
use supermemory_rs.Storage.Tables.{ClaimedJob, Db, is_active}
use supermemory_rs.Storage.Rows.{job_at, document_is, expected_stage}
use supermemory_rs.Storage.DocumentJobs.{mark_job_stage, fail_job, stage_rows}
use supermemory_rs.Storage.Invariant.{IsValidDb}
use supermemory_rs.Storage.Invariant.Updates.{quiet-IsValid}
use supermemory_rs.Storage.Invariant.Stages.{
  job_at_id, job_is_id, mark_job_stage-progress, fail_job-failed,
}
use supermemory_rs.Storage.Protocol.Claim.{
  Claim, document_claim, IsGone, IsGoodDb, IsGood-other, IsPast-set, gone_set-IsValid, gone_count,
}

module _ {V : Type 0} (now : ℕ) (job : ClaimedJob) (db : Db V) (valid : IsValidDb db) where
  pub gone_stage :
      (stage : DocumentState)
      → IsGone db.documents db.jobs (document_claim job)
      → (mark_job_stage now job stage db).1 ≡ db
  unfolding mark_job_stage
  gone_stage stage gone = elim (Option-cases (expected_stage stage)) [
    | inl e ↦ rw (e, mark_job_stage)
    | inr (expected, e) ↦
        rw (e, mark_job_stage)
          (ground (
            arith,
            gone_count job.document_id job.revision db.documents valid.documents_distinct gone.past,
          ))
  ]

  pub mark_job_stage-IsValid :
      (stage : DocumentState)
      → IsGoodDb db (document_claim job)
      → IsValidDb (mark_job_stage now job stage db).1
  unfolding mark_job_stage
  mark_job_stage-IsValid stage (inr gone) = rw (gone_stage stage gone) valid
  mark_job_stage-IsValid stage (inl held) = elim (Option-cases (expected_stage stage)) [
    | inl e ↦ rw (e, mark_job_stage) valid
    | inr (expected, e) ↦ elim (mark_job_stage-progress now job db stage expected e valid held) [
      | inl (_, db', same, valid', _, _) ↦ rw same valid'
      | inr (_, same) ↦ rw same valid
    ]
  ]

  gone_fail-IsValid :
      (error : Text)
      → IsGone db.documents db.jobs (document_claim job)
      → IsValidDb (fail_job now job error db).1
  unfolding fail_job is_active
  gone_fail-IsValid error gone =
      gone_set-IsValid now job.document_id job.revision failed db.documents _ gone.past (
        quiet-IsValid db.documents db.jobs _ _ valid (record {
          keeps_id = λ k. refl;
          keeps_document = λ k. refl;
          keeps_revision = λ k. refl;
          quiet = All-map _ _ (λ k _ hit active. cc) db.jobs valid.current;
        }))

  pub fail_job-IsValid :
      (error : Text) → IsGoodDb db (document_claim job) → IsValidDb (fail_job now job error db).1
  fail_job-IsValid error (inr gone) = gone_fail-IsValid error gone
  fail_job-IsValid error (inl held) =
      let (db', same, valid', _, _, _, _) = fail_job-failed now job error db valid held in
      rw same valid'

  -- A stage changes nothing, or makes its two updates.
  mark_cases :
      (P : Db V → Type 0) (stage : DocumentState)
      → P db
      → ((expected : DocumentState) → P (stage_rows now job expected stage db))
      → P (mark_job_stage now job stage db).1
  unfolding mark_job_stage
  mark_cases P stage same staged = elim (Option-cases (expected_stage stage)) [
    | inl e ↦ rw (e, mark_job_stage) same
    | inr (expected, e) ↦
        elim (Bool-cases (
          (count_where (job_at job.id job.revision expected) db.jobs == 1)
          && (count_where (document_is job.document_id job.revision) db.documents == 1))) [
            | inl b ↦ rw (e, b, mark_job_stage) (staged expected)
            | inr b ↦ rw (e, b, mark_job_stage) same
          ]
  ]

  -- The claims on other jobs stay good.
  module _ (c : Claim) (other : c.id ≢ job.id) (good : IsGoodDb db c) where
    pub fail_job-IsGood : (error : Text) → IsGoodDb (fail_job now job error db).1 c
    unfolding fail_job
    fail_job-IsGood error =
        IsGood-other db.documents _ db.jobs c job.id _ _ other (λ k hit. job_is_id _ _ k hit)
          (λ k. refl) (λ k. refl) (λ k. refl)
          (IsPast-set now job.document_id job.revision failed db.documents c.document_id c.revision)
          good

    staged-IsGood :
        (expected stage : DocumentState) → IsGoodDb (stage_rows now job expected stage db) c
    unfolding stage_rows
    staged-IsGood expected stage =
        IsGood-other db.documents _ db.jobs c job.id _ _ other (λ k hit. job_at_id _ _ _ k hit)
          (λ k. refl) (λ k. refl) (λ k. refl)
          (IsPast-set now job.document_id job.revision stage db.documents c.document_id c.revision)
          good

    pub mark_job_stage-IsGood :
        (stage : DocumentState) → IsGoodDb (mark_job_stage now job stage db).1 c
    mark_job_stage-IsGood stage =
        mark_cases (λ db'. IsGoodDb db' c) stage good (λ expected. staged-IsGood expected stage)

  -- The worker keeps its claim through a stage.
  pub mark_job_stage-kept :
      (stage : DocumentState)
      → IsGoodDb db (document_claim job)
      → IsGoodDb (mark_job_stage now job stage db).1 (document_claim job)
  unfolding mark_job_stage
  mark_job_stage-kept stage (inr gone) = rw (gone_stage stage gone) (inr gone)
  mark_job_stage-kept stage (inl held) = elim (Option-cases (expected_stage stage)) [
    | inl e ↦ rw (e, mark_job_stage) (inl held)
    | inr (expected, e) ↦ elim (mark_job_stage-progress now job db stage expected e valid held) [
      | inl (_, db', same, _, (after, _), _) ↦ rw same (inl after)
      | inr (_, same) ↦ rw same (inl held)
    ]
  ]
