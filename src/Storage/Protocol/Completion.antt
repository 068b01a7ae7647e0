-- ===== src/Storage/Protocol/Completion.antt =====
-- `reconcile_memories_for` of crates/storage/src/memories.rs with the memory job that it completes.
use supermemory_rs.Prelude.{
  ℕ, Text, text_eq, true, ◌≡◌, ◌≢◌, refl, ◌⊎◌, inl, inr, List, none, some, Result, ok, err, ◌==◌,
  arith, Bool-cases, Option-cases, Result-cases,
}
use supermemory_rs.Storage.State.{done}
use supermemory_rs.Storage.Sql.{update_where, count_where}
use supermemory_rs.Storage.Sql.Laws.{count_zero}
use supermemory_rs.Storage.Tables.{Job, Db, StorageError, is_active}
use supermemory_rs.Storage.Rows.{job_is, job_at, document_is, set_document_status}
use supermemory_rs.Storage.Publish.{Float32}
use supermemory_rs.Storage.MemoryJobs.{ClaimedMemoryJob, finish_memory_job}
use supermemory_rs.Storage.Invariant.{IsValidDb}
use supermemory_rs.Storage.Invariant.Held.{focus_held, held_or_none}
use supermemory_rs.Storage.Memories.Dedup.{Unicode, MemoryRecord}
use supermemory_rs.Storage.Memories.Store.{Store, Clock}
use supermemory_rs.Storage.Memories.Resolve.{MemoryProposal, read_memories}
use supermemory_rs.Storage.Memories.Reconcile.{
  is_completed, refused_revision, complete_source, validate_proposals, source_revision, started,
  reconcile_proposals, reconcile_at, reconcile_memories_for,
}
use supermemory_rs.Storage.Protocol.Claim.{
  Claim, memory_claim, IsGoodDb, IsGood-other, IsPast-set, gone_count,
}

is_completed_id :
    (id document_id : Text) (revision : ℕ) (j : Job)
    → is_completed id document_id revision j ≡ true
    → text_eq j.id id ≡ true
unfolding is_completed job_at job_is
is_completed_id id document_id revision j h = ground arith

expected-current :
    (document_id : Text) (expected current : ℕ)
    → refused_revision document_id (some expected) current ≡ none
    → current ≡ expected
unfolding refused_revision
expected-current document_id expected current h = elim (Bool-cases (expected == current)) [
  | inl e ↦ ground arith
  | inr e ↦ absurd (cc (rw e at h))
]

-- The rows of jobs and documents of a completed source.
abbrev pub completed : {V : Type 0} → ℕ → ClaimedMemoryJob → Db V → Db V
completed now job db = record db {
  jobs =
      update_where (is_completed job.id job.document_id job.revision) (finish_memory_job now)
        db.jobs;
  documents = set_document_status now job.document_id job.revision done db.documents;
}

-- What the completion counts.
abbrev pub Counts : {V : Type 0} → ClaimedMemoryJob → Db V → Type 0
Counts job db =
    ((count_where (is_completed job.id job.document_id job.revision) db.jobs == 1) ≡ true)
    × ((count_where (document_is job.document_id job.revision) db.documents == 1) ≡ true)

module _ {V : Type 0} (f : Float32) (unicode : Unicode) (clock : Clock) (now : ℕ) (ids : ℕ → Text)
    (org_id container_tag model_id : Text) (dimensions : ℕ) (job : ClaimedMemoryJob)
    (proposals : List (MemoryProposal V f.F)) (store : Store V) where
  -- The reconciliation of a worker, at the revision of its job, which it completes.
  abbrev pub reconciled : Result StorageError (List (MemoryRecord V)) × Store V
  reconciled =
      reconcile_memories_for f unicode clock now ids org_id job.document_id container_tag model_id
        dimensions (some job.revision) (some job.id) proposals store

  -- An error leaves the store; success completes the job.
  abbrev pub Reconciles : Result StorageError (List (MemoryRecord V)) × Store V → Type 0
  Reconciles out =
      ((e : StorageError) × (out ≡ (err e, store)))
      ⊎ ((records : List (MemoryRecord V)) × (out.0 ≡ ok records)
          × (out.1.db ≡ completed now job store.db)
          × Counts job store.db)

  complete_source-cases :
      (revision : ℕ)
      → revision ≡ job.revision
      → ((e : StorageError) × (complete_source now (some job.id) job.document_id revision store.db
            ≡ err e))
        ⊎ ((complete_source now (some job.id) job.document_id revision store.db
              ≡ ok (completed now job store.db))
            × Counts job store.db)
  unfolding complete_source
  complete_source-cases revision same =
      rw same
        (elim (Bool-cases
          (count_where (is_completed job.id job.document_id job.revision) store.db.jobs == 1)) [
            | inr away ↦ rw away (inl (_, refl))
            | inl one ↦
                elim (Bool-cases (
                  count_where (document_is job.document_id job.revision) store.db.documents == 1)) [
                    | inr away ↦ rw (one, away) (inl (_, refl))
                    | inl there ↦ rw (one, there) (inr (refl, (refl, refl)))
                  ]
          ])

  at_revision :
      (revision : ℕ)
      → revision ≡ job.revision
      → ((e : StorageError) × (reconcile_at f unicode clock now ids org_id job.document_id
              container_tag model_id dimensions
              (some job.id)
              revision
              proposals
              store
            ≡ err e))
        ⊎ ((records : List (MemoryRecord V)) × (after : Store V) × (reconcile_at f unicode clock now
                ids org_id job.document_id container_tag model_id dimensions
                (some job.id)
                revision
                proposals
                store
              ≡ ok (records, after))
            × (after.db ≡ completed now job store.db)
            × Counts job store.db)
  unfolding reconcile_at
  at_revision revision same =
      elim (Result-cases (
        reconcile_proposals f unicode clock now ids org_id job.document_id container_tag model_id
          dimensions 0 proposals (started unicode org_id container_tag store.tables))) [
            | inr (e, failed) ↦ rw (failed, reconcile_at) (inl (e, refl))
            | inl (p, went) ↦
                elim (Result-cases (read_memories clock p.tables.memories p.record_ids)) [
                  | inr (e, failed) ↦ rw (went, failed, reconcile_at) (inl (e, refl))
                  | inl (records, read) ↦ elim (complete_source-cases revision same) [
                    | inl (e, failed) ↦ rw (went, read, failed, reconcile_at) (inl (e, refl))
                    | inr (finished, counts) ↦
                        rw (went, read, finished, reconcile_at)
                          (inr (records, _, refl, refl, counts))
                  ]
                ]
          ]

  pub reconciled-Reconciles : Reconciles reconciled
  unfolding reconcile_memories_for
  reconciled-Reconciles = elim (Option-cases (validate_proposals f dimensions proposals)) [
    | inr (e, bad) ↦ rw (bad, reconcile_memories_for) (inl (e, refl))
    | inl fine ↦ elim (Option-cases (source_revision org_id job.document_id store.db.documents)) [
      | inl away ↦ rw (fine, away, reconcile_memories_for) (inl (_, refl))
      | inr (revision, there) ↦
          elim (Option-cases (refused_revision job.document_id (some job.revision) revision)) [
            | inr (e, stale) ↦ rw (fine, there, stale, reconcile_memories_for) (inl (e, refl))
            | inl current ↦
                elim (at_revision revision
                  (expected-current job.document_id job.revision revision current)) [
                    | inl (e, failed) ↦
                        rw (fine, there, current, failed, reconcile_memories_for) (inl (e, refl))
                    | inr (records, after, finished, at_db, counts) ↦
                        rw (fine, there, current, finished, reconcile_memories_for)
                          (inr (records, refl, at_db, counts))
                  ]
          ]
    ]
  ]

module _ {V : Type 0} (now : ℕ) (job : ClaimedMemoryJob) (db : Db V) where
  -- A completed job was held.
  pub completed-IsValid :
      IsValidDb db
      → IsGoodDb db (memory_claim job)
      → Counts job db
      → IsValidDb (completed now job db)
  unfolding finish_memory_job is_active
  completed-IsValid valid (inr gone) counts = absurd (
      ground (
        arith,
        counts.1,
        gone_count job.document_id job.revision db.documents valid.documents_distinct gone.past,
      ))
  completed-IsValid valid (inl h) counts =
      focus_held db.documents valid h _ (is_completed_id _ _ _) (finish_memory_job now) done hit
        (λ k. refl) (λ k. refl) (λ k. refl) (λ active. cc) now
    where
      hit : is_completed job.id job.document_id job.revision h.row ≡ true
      hit =
          elim (held_or_none db.documents valid h (is_completed job.id job.document_id job.revision)
            (is_completed_id _ _ _)) [
              | inl e ↦ e
              | inr none_hit ↦ absurd (ground (arith, counts.0, count_zero _ db.jobs none_hit))
            ]

  pub completed-IsGood :
      (c : Claim) → c.id ≢ job.id → IsGoodDb db c → IsGoodDb (completed now job db) c
  unfolding finish_memory_job
  completed-IsGood c other good =
      IsGood-other db.documents _ db.jobs c job.id _ (finish_memory_job now) other
        (is_completed_id _ _ _) (λ k. refl) (λ k. refl) (λ k. refl)
        (IsPast-set now job.document_id job.revision done db.documents c.document_id c.revision)
        good
