-- ===== src/Storage/Protocol/Reach.antt =====
-- Every run of clients and workers keeps the database valid and every claim good.
use supermemory_rs.Prelude.{
  ℕ, Text, false, ◌≡◌, ◌≢◌, ap, sym, inl, inr, List, ◌∷◌, Option, none, some, Result, ok, err,
  All-map,
}
use mathlib.Core.Path.{subst}
use supermemory_rs.Storage.Sql.Laws.{Among}
use supermemory_rs.Storage.Sql.Keys.{All-both}
use supermemory_rs.Storage.Tables.{ClaimedJob, Metadata, Db, document, memory, StorageError}
use supermemory_rs.Storage.DocumentJobs.{claim_job, claimed_job}
use supermemory_rs.Storage.Publish.{Float32, complete_job}
use supermemory_rs.Storage.MemoryJobs.{ClaimedMemoryJob, claim_memory_job, claimed_memory_job}
use supermemory_rs.Storage.Upsert.{UpsertDocument, UpsertResult, upsert_document_for}
use supermemory_rs.Storage.Invariant.{IsValidDb}
use supermemory_rs.Storage.Invariant.Claims.{IsClaimOf, claim_job-IsClaimOf}
use supermemory_rs.Storage.Invariant.Upsert.{
  IsUpsert, upsert_document_for-IsUpsert, unchanged, sent,
}
use supermemory_rs.Storage.Protocol.Claim.{Claim, document_claim, memory_claim, IsGoodDb}
use supermemory_rs.Storage.Protocol.Stages.{
  mark_job_stage-IsValid, mark_job_stage-IsGood, mark_job_stage-kept, fail_job-IsValid,
  fail_job-IsGood,
}
use supermemory_rs.Storage.Protocol.Deletes.{
  delete_empty-IsValid, delete_empty-IsGood, delete_document-IsValid, delete_document-IsGood,
}
use supermemory_rs.Storage.Protocol.MemoryCases.{
  complete-IsGood, retry-IsGood, cache-IsGood, cached-IsGood,
}
use supermemory_rs.Storage.Protocol.Memories.{complete-IsValid, retry-IsValid, cache-IsValid}
use supermemory_rs.Storage.Protocol.Claims.{
  claimable-fresh, claim_row-IsGood, start-IsGood, IsMemoryClaimOf,
  claim_memory_job-IsMemoryClaimOf,
}
use supermemory_rs.Storage.Memories.Dedup.{Unicode, MemoryRecord}
use supermemory_rs.Storage.Memories.Store.{MemoryTables, Store, Clock}
use supermemory_rs.Storage.Memories.Resolve.{MemoryProposal}
use supermemory_rs.Storage.Protocol.Completion.{
  reconciled, Reconciles, completed, reconciled-Reconciles, completed-IsValid, completed-IsGood,
}
use supermemory_rs.Storage.Protocol.Upsert.{upsert-IsGood}
use supermemory_rs.Storage.Protocol.Recovery.{recover-IsValid}
use supermemory_rs.Storage.Protocol.Step.{
  System, IsFresh, finished, Step, upsert, delete, claim, claim_memory, stage, fail, delete_empty,
  complete, complete_embedded, complete_with_extraction, cache, cache_stale, complete_memory,
  retry_memory, reconcile, reconcile_refused, forget, store_of, abandon, restart, Run, here, next,
  IsSound,
}
use supermemory_rs.Storage.Protocol.Sound.{
  text_eq-false, shared-IsSound, finished-IsSound, kept-IsSound, claimed-IsSound, mine-IsGood, each,
  published-IsSound, embedded-IsSound, extraction-IsSound,
}

-- The tables of memories have no part in soundness.
retabled-IsSound :
    {V : Type 0} (s : System V) (tables : MemoryTables V)
    → IsSound s
    → IsSound (record s { tables = tables })
retabled-IsSound s tables sound = record {
  valid = sound.valid;
  good = sound.good;
  distinct = sound.distinct;
}

module _ {V : Type 0} (now : ℕ) (s : System V) (sound : IsSound s) where
  claim-IsSound :
      (job : ClaimedJob)
      → (claim_job now s.db).0 ≡ ok (some job)
      → IsSound (record s { db = (claim_job now s.db).1; claims = document_claim job ∷ s.claims })
  unfolding claimed_job
  claim-IsSound job took = elim (claim_job-IsClaimOf now s.db sound.valid) [
    | inl (e, _) ↦ absurd (cc (took, ap (λ r. r.0) e))
    | inr (c, db', e, taken, valid) ↦
        let same : c ≡ job = cc (took, ap (λ r. r.0) e) in rw (← same, e) (taking c db' taken valid)
  ]
    where
      taking :
          (c : ClaimedJob) (db' : Db V)
          → IsClaimOf now s.db db' c
          → IsValidDb db'
          → IsSound (record s { db = db'; claims = document_claim c ∷ s.claims })
      taking c db' taken valid =
          let j_id : c.id ≡ taken.job.id = ap (λ x. x.id) taken.handed in
          claimed-IsSound s sound (document_claim c) db' valid (inl taken.held) (λ k good. (
            rw j_id (
                claimable-fresh now document s.db.documents s.db.jobs sound.valid taken.job
                  taken.among taken.claimable k good),
            rw taken.after (claim_row-IsGood now taken.job s.db k good),
          ))

  module _ (as_str : V → Option Text) where
    claim_memory-IsSound :
        (job : ClaimedMemoryJob)
        → (claim_memory_job as_str now s.db).0 ≡ ok (some job)
        → IsSound (record s {
          db = (claim_memory_job as_str now s.db).1;
          claims = memory_claim job ∷ s.claims;
        })
    unfolding claimed_memory_job
    claim_memory-IsSound job took =
        elim (claim_memory_job-IsMemoryClaimOf as_str now s.db sound.valid) [
          | inl (e, _) ↦ absurd (cc (took, ap (λ r. r.0) e))
          | inr (c, db', e, taken, valid) ↦
              let same : c ≡ job = cc (took, ap (λ r. r.0) e) in
              rw (← same, e) (taking c db' taken valid)
        ]
      where
        taking :
            (c : ClaimedMemoryJob) (db' : Db V)
            → IsMemoryClaimOf as_str now s.db db' c
            → IsValidDb db'
            → IsSound (record s { db = db'; claims = memory_claim c ∷ s.claims })
        taking c db' taken valid =
            let j_id : c.id ≡ taken.job.id = ap (λ x. x.id) taken.handed in
            claimed-IsSound s sound (memory_claim c) db' valid (inl taken.held) (λ k good. (
              rw j_id (
                  claimable-fresh now memory s.db.documents s.db.jobs sound.valid taken.job
                    taken.among taken.claimable k good),
              rw taken.after (
                  start-IsGood now taken.job s.db.documents s.db.documents s.db.jobs k
                    (λ past. past) good),
            ))

  -- An operation of a worker on its memory job, with which its claim ends.
  memory-IsSound :
      (job : ClaimedMemoryJob) (db' : Db V)
      → IsValidDb db'
      → ((c : Claim) → c.id ≢ job.id → IsGoodDb s.db c → IsGoodDb db' c)
      → IsSound (finished s job.id db')
  memory-IsSound job db' valid keep =
      finished-IsSound s sound job.id db' valid
        (each s sound _ (λ c other good. keep c (text_eq-false c.id job.id other) good))

  -- A reconciliation, with the claim that is released where it succeeds.
  module _ (f : Float32) (unicode : Unicode) (clock : Clock) (ids : ℕ → Text)
      (job : ClaimedMemoryJob) (model_id : Text) (dimensions : ℕ)
      (proposals : List (MemoryProposal V f.F)) (among : Among (memory_claim job) s.claims) where
    abbrev outcome : Result StorageError (List (MemoryRecord V)) × Store V
    outcome =
        reconciled f unicode clock now ids job.organization_id job.container_tag model_id dimensions
          job proposals (store_of s)

    outcome-Reconciles :
        Reconciles f unicode clock now ids job.organization_id job.container_tag model_id dimensions
          job proposals
          (store_of s)
          outcome
    outcome-Reconciles =
        reconciled-Reconciles f unicode clock now ids job.organization_id job.container_tag model_id
          dimensions job proposals (store_of s)

    reconcile-IsSound :
        (records : List (MemoryRecord V))
        → outcome.0 ≡ ok records
        → IsSound (finished s job.id outcome.1.db)
    reconcile-IsSound records succeeded = elim outcome-Reconciles [
      | inl (e, failed) ↦ absurd (cc (succeeded, ap (λ r. r.0) failed))
      | inr (same_records, _, at_db, counts) ↦
          subst (λ db'. IsSound (finished s job.id db')) (sym at_db)
            (memory-IsSound job (completed now job s.db)
              (completed-IsValid now job s.db sound.valid
                (mine-IsGood s sound (memory_claim job) among) counts)
              (λ c other good. completed-IsGood now job s.db c other good))
    ]

    refused-IsSound :
        (e : StorageError) → outcome.0 ≡ err e → IsSound (record s { db = outcome.1.db })
    refused-IsSound e refused = elim outcome-Reconciles [
      | inr (records, succeeded, _, _) ↦ absurd (cc (refused, succeeded))
      | inl (e', failed) ↦
          subst (λ db'. IsSound (record s { db = db' })) (sym (ap (λ r. r.1.db) failed))
            (record { valid = sound.valid; good = sound.good; distinct = sound.distinct })
    ]

  upsert-IsSound :
      (to_string : Metadata V → Option Text) (content_hash : Text → Text) (id job_id org_id : Text)
      (given : UpsertDocument V)
      → IsFresh s id
      → IsFresh s job_id
      → IsSound (record s {
        db = (upsert_document_for to_string content_hash now id job_id org_id given s.db).1;
      })
  upsert-IsSound to_string content_hash id job_id org_id given fresh fresh_job =
      shared-IsSound s sound _
        (valid_after (
          upsert_document_for-IsUpsert now id job_id s.db sound.valid fresh_job.no_job
            fresh.no_document to_string content_hash org_id given))
        (All-map _ _
          (λ c names good.
            upsert-IsGood to_string content_hash now id job_id org_id given s.db c sound.valid
              (text_eq-false c.id job_id names.1.0) names.0.1 good)
          s.claims (All-both _ _ s.claims fresh.no_claim fresh_job.no_claim))
    where
      valid_after :
          {r : Result StorageError UpsertResult × Db V} → IsUpsert now job_id s.db r → IsValidDb r.1
      valid_after (unchanged u db' _ _ valid) = valid
      valid_after (sent u db' _ _ _ _ valid) = valid

module _ {V : Type 0} (f : Float32) (to_string : Metadata V → Option Text)
    (content_hash : Text → Text) (as_str : V → Option Text) where
  Step-IsSound : {s t : System V} → Step f to_string content_hash as_str s t → IsSound s → IsSound t
  unfolding complete_job
  Step-IsSound {s} (upsert now id job_id org_id given fresh fresh_job) sound =
      upsert-IsSound now s sound to_string content_hash id job_id org_id given fresh fresh_job
  Step-IsSound {s} (delete org_id identifier) sound =
      shared-IsSound s sound _ (delete_document-IsValid org_id identifier s.db sound.valid)
        (each s sound _ (delete_document-IsGood org_id identifier s.db sound.valid))
  Step-IsSound {s} (claim now job took) sound = claim-IsSound now s sound job took
  Step-IsSound {s} (claim_memory now job took) sound =
      claim_memory-IsSound now s sound as_str job took
  Step-IsSound {s} (stage now job status among) sound =
      let mine = mine-IsGood s sound (document_claim job) among in
      kept-IsSound s sound (document_claim job) _ among
        (mark_job_stage-IsValid now job s.db sound.valid status mine)
        (mark_job_stage-kept now job s.db sound.valid status mine)
        (λ c other good. mark_job_stage-IsGood now job s.db sound.valid c other good status)
  Step-IsSound {s} (fail now job error among) sound =
      finished-IsSound s sound job.id _
        (fail_job-IsValid now job s.db sound.valid error
          (mine-IsGood s sound (document_claim job) among))
        (each s sound _ (λ c other good.
          fail_job-IsGood now job s.db sound.valid c (text_eq-false c.id job.id other) good error))
  Step-IsSound {s} (delete_empty job among) sound =
      finished-IsSound s sound job.id _ (delete_empty-IsValid job s.db sound.valid)
        (each s sound _ (λ c other good. delete_empty-IsGood job s.db sound.valid c good))
  Step-IsSound {s} (complete now chunk_ids job_id job chunks among fresh) sound =
      published-IsSound f now chunk_ids job_id job s sound among fresh _ none false
  Step-IsSound {s}
        (complete_embedded now chunk_ids job_id job chunks model_id dimensions among fresh) sound =
      embedded-IsSound f now chunk_ids job_id job s sound among fresh chunks model_id dimensions
  Step-IsSound {s}
        (complete_with_extraction now chunk_ids job_id job chunks model_id dimensions among fresh)
        sound =
      extraction-IsSound f now chunk_ids job_id job s sound among fresh chunks model_id dimensions
  Step-IsSound {s} (cache now job result among cached) sound =
      kept-IsSound s sound (memory_claim job) _ among
        (cache-IsValid now job s.db sound.valid result)
        (cached-IsGood now job s.db result (mine-IsGood s sound (memory_claim job) among) cached)
        (λ c other good. cache-IsGood now job s.db c other good result)
  Step-IsSound {s} (cache_stale now job result among) sound =
      memory-IsSound now s sound job _ (cache-IsValid now job s.db sound.valid result)
        (λ c other good. cache-IsGood now job s.db c other good result)
  Step-IsSound {s} (complete_memory now job among) sound =
      memory-IsSound now s sound job _
        (complete-IsValid now job s.db sound.valid (mine-IsGood s sound (memory_claim job) among))
        (λ c other good. complete-IsGood now job s.db c other good)
  Step-IsSound {s} (retry_memory now job kind error delay among) sound =
      memory-IsSound now s sound job _
        (retry-IsValid now job s.db sound.valid (mine-IsGood s sound (memory_claim job) among) kind
          error delay)
        (λ c other good. retry-IsGood now job s.db c other good kind error delay)
  Step-IsSound {s}
        (reconcile unicode clock now ids job model_id dimensions proposals records among done)
        sound =
      retabled-IsSound _ _ (
        reconcile-IsSound now s sound f unicode clock ids job model_id dimensions proposals among
          records done)
  Step-IsSound {s}
        (reconcile_refused unicode clock now ids job model_id dimensions proposals e among refused)
        sound =
      retabled-IsSound _ _ (
        refused-IsSound now s sound f unicode clock ids job model_id dimensions proposals among e
          refused)
  Step-IsSound {s} (forget clock now org_id id content container_tag reason) sound =
      retabled-IsSound s _ sound
  Step-IsSound {s} (abandon id) sound =
      finished-IsSound s sound id s.db sound.valid (each s sound _ (λ c _ good. good))
  Step-IsSound {s} (restart now) sound = record {
    valid = recover-IsValid now s.db sound.valid;
    good = tt;
    distinct = tt;
  }

  -- Whatever steps of `Step` clients and workers take, in whatever order, a reconciliation that
  -- completes its memory job among them, and however often the database is opened again, from a sound
  -- system: the database stays valid, so that a document has at most one active
  -- job, which is at the document's revision and whose status the document shows; every claim still
  -- holds its row or its document has moved on; and no two claims are on one job.
  pub Run-IsSound :
      {s t : System V} → Run f to_string content_hash as_str s t → IsSound s → IsSound t
  Run-IsSound here sound = sound
  Run-IsSound (next run step) sound = Step-IsSound step (Run-IsSound run sound)
