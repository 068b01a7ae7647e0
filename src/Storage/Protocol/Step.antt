-- ===== src/Storage/Protocol/Step.antt =====
-- The database and the tables of memories under their clients and workers, one operation at a time:
-- the single writer task of crates/server/src/writer.rs runs each operation whole. A worker calls the
-- operations of crates/storage with a job that it claimed, and gives its claim up with the last of
-- them, or when it stops; a reconciliation that is refused leaves it the claim. Opening the database
-- again runs the recovery with no worker left.
use supermemory_rs.Prelude.{ℕ, Text, text_eq, false, ◌≡◌, List, [], ◌∷◌, Option, some, ok, err, All}
use supermemory_rs.Storage.State.{DocumentState}
use supermemory_rs.Storage.Sql.{delete_where}
use supermemory_rs.Storage.Sql.Laws.{Among}
use supermemory_rs.Storage.Sql.Keys.{Distinct}
use supermemory_rs.Storage.Tables.{ClaimedJob, Metadata, Db, StorageError}
use supermemory_rs.Storage.DocumentJobs.{claim_job, mark_job_stage, fail_job, delete_empty_document}
use supermemory_rs.Storage.Publish.{
  Float32, EmbeddedChunk, complete_job, complete_embedded_job,
  complete_embedded_job_with_memory_extraction,
}
use supermemory_rs.Storage.MemoryJobs.{
  ClaimedMemoryJob, claim_memory_job, cache_memory_extraction, complete_memory_job,
  retry_memory_job,
}
use supermemory_rs.Storage.Upsert.{UpsertDocument, upsert_document_for}
use supermemory_rs.Storage.Documents.{delete_document_for}
use supermemory_rs.Storage.Recovery.{recover}
use supermemory_rs.Storage.Memories.Dedup.{Unicode, MemoryRecord}
use supermemory_rs.Storage.Memories.Store.{MemoryTables, Store, Clock}
use supermemory_rs.Storage.Memories.Resolve.{MemoryProposal}
use supermemory_rs.Storage.Memories.Profiles.{forget_memory_for}
use supermemory_rs.Storage.Protocol.Completion.{reconciled}
use supermemory_rs.Storage.Invariant.{IsValidDb}
use supermemory_rs.Storage.Protocol.Claim.{Claim, document_claim, memory_claim, IsGoodDb}

pub record System (V : Type 0) : Type 0 where
  pub db : Db V
  pub tables : MemoryTables V
  pub claims : List Claim

abbrev pub store_of : {V : Type 0} → System V → Store V
store_of s = record { db = s.db; tables = s.tables }

-- A generated id that no row and no claim names.
pub record IsFresh {V : Type 0} (s : System V) (id : Text) : Type 0 where
  pub no_document : All (λ d. text_eq d.id id ≡ false) s.db.documents
  pub no_job : All (λ j. text_eq j.id id ≡ false) s.db.jobs
  pub no_claim : All (λ c. (text_eq c.id id ≡ false) × (text_eq id c.document_id ≡ false)) s.claims

abbrev pub released : Text → List Claim → List Claim
released id = delete_where λ c. text_eq c.id id

-- The worker's claim ends with the operation.
abbrev pub finished : {V : Type 0} → System V → Text → Db V → System V
finished s id db' = record s { db = db'; claims = released id s.claims }

module _ {V : Type 0} (f : Float32) (to_string : Metadata V → Option Text)
    (content_hash : Text → Text) (as_str : V → Option Text) where
  pub data Step (s : System V) : System V → Type 0 where
    upsert :
        (now : ℕ) (id job_id org_id : Text) (given : UpsertDocument V)
        → IsFresh s id
        → IsFresh s job_id
        → Step s (record s {
          db = (upsert_document_for to_string content_hash now id job_id org_id given s.db).1;
        })
    delete :
        (org_id identifier : Text)
        → Step s (record s { db = (delete_document_for org_id identifier s.db).1 })
    claim :
        (now : ℕ) (job : ClaimedJob)
        → (claim_job now s.db).0 ≡ ok (some job)
        → Step s (record s { db = (claim_job now s.db).1; claims = document_claim job ∷ s.claims })
    claim_memory :
        (now : ℕ) (job : ClaimedMemoryJob)
        → (claim_memory_job as_str now s.db).0 ≡ ok (some job)
        → Step s (record s {
          db = (claim_memory_job as_str now s.db).1;
          claims = memory_claim job ∷ s.claims;
        })
    stage :
        (now : ℕ) (job : ClaimedJob) (next : DocumentState)
        → Among (document_claim job) s.claims
        → Step s (record s { db = (mark_job_stage now job next s.db).1 })
    fail :
        (now : ℕ) (job : ClaimedJob) (error : Text)
        → Among (document_claim job) s.claims
        → Step s (finished s job.id (fail_job now job error s.db).1)
    delete_empty :
        (job : ClaimedJob)
        → Among (document_claim job) s.claims
        → Step s (finished s job.id (delete_empty_document job s.db).1)
    complete :
        (now : ℕ) (chunk_ids : ℕ → Text) (job_id : Text) (job : ClaimedJob) (chunks : List Text)
        → Among (document_claim job) s.claims
        → IsFresh s job_id
        → Step s (finished s job.id (complete_job f now chunk_ids job_id job chunks s.db).1)
    complete_embedded :
        (now : ℕ) (chunk_ids : ℕ → Text) (job_id : Text) (job : ClaimedJob)
        (chunks : List (EmbeddedChunk f.F)) (model_id : Text) (dimensions : ℕ)
        → Among (document_claim job) s.claims
        → IsFresh s job_id
        → Step s (
            finished s job.id
              (complete_embedded_job f now chunk_ids job_id job chunks model_id dimensions s.db).1)
    complete_with_extraction :
        (now : ℕ) (chunk_ids : ℕ → Text) (job_id : Text) (job : ClaimedJob)
        (chunks : List (EmbeddedChunk f.F)) (model_id : Text) (dimensions : ℕ)
        → Among (document_claim job) s.claims
        → IsFresh s job_id
        → Step s (
            finished s job.id
              (complete_embedded_job_with_memory_extraction f now chunk_ids job_id job chunks
                model_id dimensions s.db).1)
    cache :
        (now : ℕ) (job : ClaimedMemoryJob) (result : Text)
        → Among (memory_claim job) s.claims
        → (cache_memory_extraction now job result s.db).0 ≡ ok tt
        → Step s (record s { db = (cache_memory_extraction now job result s.db).1 })
    cache_stale :
        (now : ℕ) (job : ClaimedMemoryJob) (result : Text)
        → Among (memory_claim job) s.claims
        → Step s (finished s job.id (cache_memory_extraction now job result s.db).1)
    complete_memory :
        (now : ℕ) (job : ClaimedMemoryJob)
        → Among (memory_claim job) s.claims
        → Step s (finished s job.id (complete_memory_job now job s.db).1)
    retry_memory :
        (now : ℕ) (job : ClaimedMemoryJob) (kind error : Text) (delay : Option ℕ)
        → Among (memory_claim job) s.claims
        → Step s (finished s job.id (retry_memory_job now job kind error delay s.db).1)
    reconcile :
        (unicode : Unicode) (clock : Clock) (now : ℕ) (ids : ℕ → Text) (job : ClaimedMemoryJob)
        (model_id : Text) (dimensions : ℕ) (proposals : List (MemoryProposal V f.F))
        (records : List (MemoryRecord V))
        → Among (memory_claim job) s.claims
        → (reconciled f unicode clock now ids job.organization_id job.container_tag model_id
            dimensions job proposals
            (store_of s)).0
          ≡ ok records
        → Step s (record s {
          db =
              (reconciled f unicode clock now ids job.organization_id job.container_tag model_id
                dimensions job proposals
                (store_of s)).1.db;
          tables =
              (reconciled f unicode clock now ids job.organization_id job.container_tag model_id
                dimensions job proposals
                (store_of s)).1.tables;
          claims = released job.id s.claims;
        })
    reconcile_refused :
        (unicode : Unicode) (clock : Clock) (now : ℕ) (ids : ℕ → Text) (job : ClaimedMemoryJob)
        (model_id : Text) (dimensions : ℕ) (proposals : List (MemoryProposal V f.F))
        (e : StorageError)
        → Among (memory_claim job) s.claims
        → (reconciled f unicode clock now ids job.organization_id job.container_tag model_id
            dimensions job proposals
            (store_of s)).0
          ≡ err e
        → Step s (record s {
          db =
              (reconciled f unicode clock now ids job.organization_id job.container_tag model_id
                dimensions job proposals
                (store_of s)).1.db;
          tables =
              (reconciled f unicode clock now ids job.organization_id job.container_tag model_id
                dimensions job proposals
                (store_of s)).1.tables;
        })
    forget :
        (clock : Clock) (now : ℕ) (org_id : Text) (id content : Option Text) (container_tag : Text)
        (reason : Option Text)
        → Step s (record s {
          tables = (forget_memory_for clock now org_id id content container_tag reason s.tables).1;
        })
    abandon : (id : Text) → Step s (finished s id s.db)
    restart : (now : ℕ) → Step s (record s { db = recover now s.db; claims = [] })

  -- Any number of steps.
  pub data Run (s : System V) : System V → Type 0 where
    here : Run s s
    next : {t u : System V} → Run s t → Step t u → Run s u

-- The database is valid, every claim is good, and no two claims are on one job.
pub record IsSound {V : Type 0} (s : System V) : Type 0 where
  pub valid : IsValidDb s.db
  pub good : All (IsGoodDb s.db) s.claims
  pub distinct : Distinct (λ (c : Claim). c.id) s.claims
