-- ===== src/Tests/Protocol.antt =====
-- A worker claims a document, moves it on and fails it; then the database is opened again.
use supermemory_rs.Prelude.{
  ℕ, Text, codes, true, false, ◌≡◌, refl, ◌⊎◌, inl, List, [], ◌∷◌, Option, none, some, ok, All,
  Result, is_whitespace, ◌++◌, text_eq,
}
use supermemory_rs.Storage.State.{queued, chunking, embedding, indexing}
use supermemory_rs.Storage.Sql.Laws.{Among}
use supermemory_rs.Storage.Sql.{select_where, first_where, exists_where, update_where, count_where}
use supermemory_rs.Storage.Tables.{
  document, memory, Db, StorageError, is_processing, find_document, kind_eq,
}
use supermemory_rs.Storage.Rows.{is_claimable, oldest}
use supermemory_rs.Storage.DocumentJobs.{claim_job}
use supermemory_rs.Storage.Publish.{Float32}
use supermemory_rs.Storage.MemoryJobs.{ClaimedMemoryJob, claim_memory_job}
use supermemory_rs.Storage.Recovery.{requeue_job, recover}
use supermemory_rs.Storage.Memories.Dedup.{Unicode, MemoryRecord}
use supermemory_rs.Storage.Memories.Store.{MemoryTables, Store, Clock}
use supermemory_rs.Storage.Memories.Resolve.{MemoryProposal}
use supermemory_rs.Storage.Memories.Reconcile.{reconcile_memories_for}
use supermemory_rs.Storage.Protocol.Completion.{reconciled}
use supermemory_rs.Storage.Invariant.{IsValidDb}
use supermemory_rs.Storage.Protocol.Claim.{document_claim, memory_claim}
use supermemory_rs.Storage.Protocol.Step.{
  System, store_of, claim, claim_memory, reconcile, stage, fail, restart, Run, here, next, IsSound,
}
use supermemory_rs.Storage.Protocol.Claims.{IsMemoryClaimOf, claim_memory_job-IsMemoryClaimOf}
use supermemory_rs.Storage.Protocol.Recovery.{recover-claimable}
use supermemory_rs.Storage.Protocol.Reach.{Run-IsSound}
use supermemory_rs.Tests.Storage.{db_at, job_of, claimed, valid_at, memory_valid}

-- Components of vectors that are numbers, every one of them finite and of norm one.
abbrev pub counting : Float32
counting = record {
  F = ℕ;
  is_finite = λ _. true;
  norm = λ _. 1;
  is_unit = λ _. true;
  to_le_bytes = λ x. x ∷ [];
}

abbrev no_memories : MemoryTables ℕ
no_memories = record { memories = []; sources = []; relations = []; embeddings = [] }

abbrev at_rest : System ℕ
at_rest = record { db = db_at document queued queued; tables = no_memories; claims = [] }

abbrev working : System ℕ
working = record {
  db = (claim_job 9 (db_at document queued queued)).1;
  tables = no_memories;
  claims = document_claim claimed ∷ [];
}

hands_out : (claim_job 9 (db_at document queued queued)).0 ≡ ok (some claimed)
unfolding claim_job select_where is_claimable oldest find_document first_where text_eq kind_eq
hands_out = refl

abbrev some_run :
    (t : System ℕ) × Run counting
      (λ (_ : List (Text × ℕ)). none)
      (λ t. t)
      (λ (_ : ℕ). none)
      at_rest
      t
some_run = (
  _,
  next
      (next (next (next here (claim 9 claimed hands_out)) (stage 9 claimed chunking (inl refl)))
        (fail 9 claimed (codes "e") (inl refl)))
      (restart 10),
)

abbrev waiting : Db ℕ
waiting = db_at memory indexing queued

abbrev no_text : ℕ → Option Text
no_text _ = none

abbrev memory_job : ClaimedMemoryJob
memory_job = record {
  id = codes "j";
  document_id = codes "d";
  content = codes "text";
  revision = 1;
  organization_id = codes "o";
  container_tag = codes "sm_project_default";
  document_date = none;
  extraction_result = none;
  attempts = 1;
}

hands_out_memory : (claim_memory_job no_text 9 waiting).0 ≡ ok (some memory_job)
unfolding claim_memory_job select_where is_claimable oldest find_document first_where text_eq
    kind_eq count_where
hands_out_memory = refl

abbrev plain : Unicode
plain = record { to_lowercase = λ t. t; is_alphanumeric = λ _. true }

abbrev no_clock : Clock
no_clock = record { datetime = λ _. none; timestamp = λ n. n ∷ [] }

-- A memory that the provider extracted.
abbrev extracted : MemoryProposal ℕ ℕ
extracted = record {
  temporary_id = codes "1";
  content = codes "tea";
  is_inferred = false;
  is_static = false;
  metadata = [];
  parents = [];
  forget_after = none;
  forget_reason = none;
  vector = 1 ∷ [];
}

abbrev memorizing : System ℕ
memorizing = record {
  db = (claim_memory_job no_text 9 waiting).1;
  tables = no_memories;
  claims = memory_claim memory_job ∷ [];
}

abbrev stored : Result StorageError (List (MemoryRecord ℕ)) × Store ℕ
stored =
    reconciled counting plain no_clock 9 (λ n. n ∷ []) memory_job.organization_id
      memory_job.container_tag (codes "m") 1 memory_job (extracted ∷ []) (store_of memorizing)

succeeds :
    stored.0
    ≡ ok (
        (record {
          id = codes "mem_" ++ 0 ∷ [];
          memory = codes "tea";
          metadata = [];
          is_inferred = false;
          is_static = false;
          is_latest = true;
          is_forgotten = false;
          root_memory_id = none;
          parent_memory_id = none;
          version = 1;
          forget_after = none;
          forget_reason = none;
          created_at = 9 ∷ [];
          updated_at = 9 ∷ [];
        })
        ∷ [])
unfolding claim_memory_job select_where is_claimable oldest find_document first_where text_eq
    kind_eq reconcile_memories_for is_whitespace exists_where update_where count_where
succeeds = refl

-- A worker claims the memory job, and its reconciliation completes it.
abbrev memory_run :
    (t : System ℕ) × Run counting
      (λ (_ : List (Text × ℕ)). none)
      (λ t. t)
      no_text
      (record { db = waiting; tables = no_memories; claims = [] })
      t
memory_run = (
  _,
  next
      (next (next here (claim_memory 9 memory_job hands_out_memory)) (
        reconcile plain no_clock 9 (λ n. n ∷ []) memory_job (codes "m") 1 (extracted ∷ []) _
          (inl refl) succeeds))
      (restart 10),
)

Run-IsSound_example : IsSound memory_run.0
Run-IsSound_example =
    Run-IsSound counting (λ _. none) (λ t. t) no_text memory_run.1
      (record { valid = memory_valid; good = tt; distinct = tt })

claim_memory_job-IsMemoryClaimOf_example :
    ((claim_memory_job no_text 9 waiting ≡ (ok none, waiting))
      × All (λ k. is_claimable 9 memory waiting.documents k ≡ false) waiting.jobs)
    ⊎ ((c : ClaimedMemoryJob) × (db' : Db ℕ) × (claim_memory_job no_text 9 waiting
          ≡ (ok (some c), db'))
        × IsMemoryClaimOf no_text 9 waiting db' c
        × IsValidDb db')
claim_memory_job-IsMemoryClaimOf_example =
    claim_memory_job-IsMemoryClaimOf no_text 9 waiting memory_valid

recover-claimable_example :
    Among
      (requeue_job 9 (job_of document embedding))
      (recover 9 (db_at document embedding embedding)).jobs
    × (is_claimable 9 document
          ((recover 9 (db_at document embedding embedding)).documents)
          (requeue_job 9 (job_of document embedding))
        ≡ true)
unfolding is_processing
recover-claimable_example =
    recover-claimable 9 (db_at document embedding embedding) (valid_at embedding)
      (job_of document embedding) (inl refl) refl
