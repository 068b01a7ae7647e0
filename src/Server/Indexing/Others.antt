-- ===== src/Server/Indexing/Others.antt =====
-- A client that deletes a document while a worker of crates/server/src/indexing_coordinator.rs waits.
use supermemory_rs.Prelude.{
  ℕ, Text, text_eq_iff, ◌≡◌, ap, sym, ◌∙◌, inl, inr, All, ◌==◌, Bool-cases, Option-cases,
  if◌then◌else◌,
}
use supermemory_rs.Storage.Sql.Laws.{Among, All-among, All-delete, All-intro}
use supermemory_rs.Storage.Sql.Keys.{Distinct-key}
use supermemory_rs.Storage.State.{DocumentState}
use supermemory_rs.Storage.Tables.{ClaimedJob, Job, Db}
use supermemory_rs.Storage.Rows.{cascade_document}
use supermemory_rs.Storage.Documents.{identified, delete_document_for}
use supermemory_rs.Storage.Invariant.{IsValidDb}
use supermemory_rs.Storage.Invariant.Held.{processing-active}
use supermemory_rs.Storage.Protocol.Claim.{document_claim}
use supermemory_rs.Storage.Protocol.Deletes.{delete_document-IsValid, delete_document-IsGood}
use supermemory_rs.Server.Indexing.Ended.{OnCourse, LeavesClaim, moved-IsSettled}

-- The document is deleted before the operation of the index.
abbrev pub deleting_before : {V : Type 0} → ℕ → Text → Text → ℕ → Db V → Db V
deleting_before index org_id identifier i db =
    if i == index then (delete_document_for org_id identifier db).1 else db

module _ {V : Type 0} (org_id identifier : Text) where
  rows_remain :
      (db : Db V) → All (λ k. Among k db.jobs) (delete_document_for org_id identifier db).1.jobs
  unfolding delete_document_for cascade_document
  rows_remain db = elim (Option-cases (identified org_id identifier db.documents)) [
    | inl e ↦ rw (e, delete_document_for) (All-intro _ db.jobs (λ k m. m))
    | inr (id, e) ↦
        rw (e, delete_document_for) (All-delete _ _ db.jobs (All-intro _ db.jobs (λ k m. m)))
  ]

  delete-OnCourse :
      (job : ClaimedJob) (stage : DocumentState) (db : Db V)
      → IsValidDb db
      → OnCourse job stage db
      → OnCourse job stage (delete_document_for org_id identifier db).1
  delete-OnCourse job stage db valid (inr gone) =
      elim (delete_document-IsGood org_id identifier db valid (document_claim job) (inr gone)) [
        | inr still ↦ inr still
        | inl held ↦
            let idle =
              All-among _ held.row db.jobs (moved-IsSettled job db valid gone)
                (All-among _ held.row _ (rows_remain db) held.among)
                ((text_eq_iff held.row.id job.id).1 held.same_id) in
            absurd (cc (idle, processing-active held.row.status held.processing))
      ]
  delete-OnCourse job stage db valid (inl (held, status)) =
      elim (delete_document-IsGood org_id identifier db valid (document_claim job) (inl held)) [
        | inr gone ↦ inr gone
        | inl after ↦
            let key =
              All-among _ after.row db.jobs
                (Distinct-key (λ (k : Job). k.id) held.row db.jobs valid.distinct held.among)
                (All-among _ after.row _ (rows_remain db) after.among) in
            let same : after.row ≡ held.row =
              key ((text_eq_iff after.row.id held.row.id).1 (after.same_id ∙ sym held.same_id)) in
            inl (after, ap (λ k. k.status) same ∙ status)
      ]

  pub deleting_before-LeavesClaim :
      (job : ClaimedJob) (index : ℕ)
      → LeavesClaim {V = V} job (deleting_before index org_id identifier)
  deleting_before-LeavesClaim job index i stage db valid course = elim (Bool-cases (i == index)) [
    | inl e ↦ rw e (
      delete_document-IsValid org_id identifier db valid,
      delete-OnCourse job stage db valid course,
    )
    | inr e ↦ rw e (valid, course)
  ]
