-- ===== src/Storage/Memories/Reconcile.antt =====
-- `reconcile_memories_for` of crates/storage/src/memories.rs: extracted memories become rows, in
-- one transaction. `ids` is what `generate_id` returns, by the position of the proposal.
use mathlib.Core.List.{flat_map}
use supermemory_rs.Prelude.{
  ℕ, ◌+◌, Text, text_eq, Bool, true, false, ◌&&◌, ◌||◌, List, [], ◌∷◌, ◌++◌, Option, none, some,
  Result, ok, err, ◌==◌, if◌then◌else◌, codes, trim, is_empty,
}
use supermemory_rs.Storage.State.{extracting, done}
use supermemory_rs.Storage.Sql.{update_where, first_where, exists_where, count_where}
use supermemory_rs.Storage.Tables.{
  Document, Job, Db, StorageError, constraint, stale_revision, invalid_memory_proposal,
  unknown_memory_source,
}
use supermemory_rs.Storage.Rows.{document_is, set_document_status, job_at}
use supermemory_rs.Storage.MemoryJobs.{finish_memory_job}
use supermemory_rs.Storage.Publish.{Float32, validate_vector}
use supermemory_rs.Storage.Memories.Dedup.{Unicode, MemoryRecord, normalized_memory}
use supermemory_rs.Storage.Memories.Store.{
  Memory, MemoryEmbedding, MemoryTables, Store, Clock, valid_future_datetime, same_source,
  add_source,
}
use supermemory_rs.Storage.Memories.Resolve.{
  MemoryProposal, ResolvedParent, TextMap, get, head, derives, root_under, id_of, version_under,
  active_memory_ids_by_content, resolve_memory_parents, link_parents, read_memories,
}

-- id=?1 AND document_id=?2 AND revision=?3 AND status='extracting'
unfoldable pub is_completed : Text → Text → ℕ → Job → Bool
unfolding job_at
is_completed job_id document_id revision j =
    job_at job_id revision extracting j && text_eq j.document_id document_id

-- The error of an expected revision that is not the current one.
unfoldable pub refused_revision : Text → Option ℕ → ℕ → Option StorageError
refused_revision document_id none current = none
refused_revision document_id (some expected) current =
    if expected == current then none else some (stale_revision document_id expected (some current))

unfoldable pub memory_embedding : (f : Float32) → Text → Text → ℕ → List f.F → MemoryEmbedding
memory_embedding f id model_id dimensions vector = record {
  memory_id = id;
  model_id = model_id;
  dimensions = dimensions;
  vector = flat_map f.to_le_bytes vector;
  active = true;
}

-- The transaction while it goes through the proposals.
pub record Progress (V : Type 0) : Type 0 where
  pub tables : MemoryTables V
  pub temporary_ids : TextMap
  pub exact_memories : TextMap
  pub record_ids : List Text

module _ {V : Type 0} where
  unfoldable pub complete_source : ℕ → Option Text → Text → ℕ → Db V → Result StorageError (Db V)
  unfolding is_completed document_is finish_memory_job set_document_status
  complete_source now none document_id revision db = ok db
  complete_source now (some job_id) document_id revision db =
      if (count_where (is_completed job_id document_id revision) db.jobs == 1)
        && (count_where (document_is document_id revision) db.documents == 1)
      then ok (record db {
        jobs =
            update_where (is_completed job_id document_id revision) (finish_memory_job now) db.jobs;
        documents = set_document_status now document_id revision done db.documents;
      })
      else err (stale_revision document_id revision none)

  -- A proposal whose content is known already.
  unfoldable pub recall : {F : Type 0} → Text → Text → MemoryProposal V F → Progress V → Progress V
  unfolding add_source
  recall document_id existing_id proposal p = record p {
    tables = record p.tables {
      sources =
          add_source (record { memory_id = existing_id; document_id = document_id })
            p.tables.sources;
    };
    temporary_ids = (proposal.temporary_id, existing_id) ∷ p.temporary_ids;
    record_ids = p.record_ids ++ existing_id ∷ [];
  }

  -- INSERT INTO memories and memory_sources, and the loop over the parents.
  unfoldable pub link_row :
      ℕ → Text → List ResolvedParent → Memory V → MemoryTables V → MemoryTables V
  unfolding link_parents
  link_row now document_id parents row tables = link_parents now row.id parents (record tables {
    memories = tables.memories ++ row ∷ [];
    sources = tables.sources ++ (record { memory_id = row.id; document_id = document_id }) ∷ [];
  })

  -- The primary keys of the three tables, and CHECK (dimensions > 0).
  unfoldable pub breaks_constraint : Text → ℕ → Memory V → MemoryTables V → MemoryTables V → Bool
  unfolding same_source
  breaks_constraint document_id dimensions row before linked =
      exists_where (λ m. text_eq m.id row.id) before.memories
      || exists_where (same_source (record { memory_id = row.id; document_id = document_id }))
          before.sources
      || exists_where (λ e. text_eq e.memory_id row.id) linked.embeddings
      || (dimensions == 0)

  unfoldable pub new_memory :
      {F : Type 0}
      → Clock
      → ℕ
      → Text
      → Text
      → Text
      → List ResolvedParent
      → MemoryProposal V F
      → Memory V
  unfolding derives root_under id_of version_under valid_future_datetime
  new_memory clock now id org_id container_tag parents proposal = record {
    id = id;
    org_id = org_id;
    container_tag = container_tag;
    content = proposal.content;
    metadata = proposal.metadata;
    is_inferred = proposal.is_inferred || derives parents;
    is_static = proposal.is_static;
    is_latest = true;
    is_forgotten = false;
    root_memory_id = root_under (head parents);
    parent_memory_id = id_of (head parents);
    version = version_under (head parents);
    forget_after = valid_future_datetime clock now proposal.forget_after;
    forget_reason = proposal.forget_reason;
    created_at = now;
    updated_at = now;
  }

  -- INSERT INTO memory_embeddings, once the row is linked.
  unfoldable pub insert_memory :
      (f : Float32)
      → ℕ
      → Text
      → Text
      → ℕ
      → List ResolvedParent
      → MemoryProposal V f.F
      → Memory V
      → MemoryTables V
      → Result StorageError (MemoryTables V)
  unfolding link_row breaks_constraint memory_embedding
  insert_memory f now document_id model_id dimensions parents proposal row tables =
      let linked = link_row now document_id parents row tables in
      if breaks_constraint document_id dimensions row tables linked
      then err constraint
      else ok (record linked {
        embeddings =
            linked.embeddings ++ memory_embedding f row.id model_id dimensions proposal.vector ∷ [];
      })

  -- The first error among the proposals.
  unfoldable pub validate_proposals :
      (f : Float32) → ℕ → List (MemoryProposal V f.F) → Option StorageError
  unfolding validate_vector trim
  validate_proposals f dimensions [] = none
  validate_proposals f dimensions (proposal ∷ proposals) =
      let rest = validate_proposals f dimensions proposals in
      elim (validate_vector f proposal.vector dimensions) [
        | some e ↦ some e
        | none ↦
            if is_empty proposal.temporary_id || is_empty (trim proposal.content)
            then some invalid_memory_proposal
            else rest
      ]

  -- SELECT revision FROM documents WHERE id=?1 AND org_id=?2
  unfoldable pub source_revision : Text → Text → List (Document V) → Option ℕ
  source_revision org_id document_id documents =
      elim (first_where (λ d. text_eq d.id document_id && text_eq d.org_id org_id) documents) [
        | none ↦ none
        | some d ↦ some d.revision
      ]

  unfoldable pub started : Unicode → Text → Text → MemoryTables V → Progress V
  unfolding active_memory_ids_by_content
  started unicode org_id container_tag tables = record {
    tables = tables;
    temporary_ids = [];
    exact_memories = active_memory_ids_by_content unicode org_id container_tag tables.memories;
    record_ids = [];
  }

  module _ (f : Float32) (unicode : Unicode) (clock : Clock) (now : ℕ) (ids : ℕ → Text) where
    module _ (org_id document_id container_tag model_id : Text) (dimensions : ℕ) where
      -- The body of the loop for a proposal that is not known.
      unfoldable pub memorize :
          ℕ → MemoryProposal V f.F → Progress V → Result StorageError (Progress V)
      unfolding resolve_memory_parents new_memory insert_memory normalized_memory
      memorize index proposal p =
          let parents =
            resolve_memory_parents org_id container_tag p.tables.memories p.temporary_ids
              proposal.parents in
          let id = codes "mem_" ++ ids index in
          let row = new_memory clock now id org_id container_tag parents proposal in
          elim (insert_memory f now document_id model_id dimensions parents proposal row p.tables) [
            | err e ↦ err e
            | ok tables ↦ ok (record {
              tables = tables;
              temporary_ids = (proposal.temporary_id, id) ∷ p.temporary_ids;
              exact_memories = (normalized_memory unicode proposal.content, id) ∷ p.exact_memories;
              record_ids = p.record_ids ++ id ∷ [];
            })
          ]

      unfoldable pub reconcile_proposal :
          ℕ → MemoryProposal V f.F → Progress V → Result StorageError (Progress V)
      unfolding get normalized_memory recall memorize
      reconcile_proposal index proposal p =
          elim (get (normalized_memory unicode proposal.content) p.exact_memories) [
            | some existing_id ↦ ok (recall document_id existing_id proposal p)
            | none ↦ memorize index proposal p
          ]

      -- The loop over the proposals.
      unfoldable pub reconcile_proposals :
          ℕ → List (MemoryProposal V f.F) → Progress V → Result StorageError (Progress V)
      unfolding reconcile_proposal
      reconcile_proposals index [] p = ok p
      reconcile_proposals index (proposal ∷ proposals) p =
          elim (reconcile_proposal index proposal p) [
            | err e ↦ err e
            | ok p' ↦ reconcile_proposals (index + 1) proposals p'
          ]

      -- The transaction at the revision of the source.
      unfoldable pub reconcile_at :
          Option Text
          → ℕ
          → List (MemoryProposal V f.F)
          → Store V
          → Result StorageError (List (MemoryRecord V) × Store V)
      unfolding reconcile_proposals started read_memories complete_source
      reconcile_at completion_job_id revision proposals store =
          elim (reconcile_proposals 0 proposals
            (started unicode org_id container_tag store.tables)) [
              | err e ↦ err e
              | ok p ↦ elim (read_memories clock p.tables.memories p.record_ids) [
                | err e ↦ err e
                | ok records ↦
                    elim (complete_source now completion_job_id document_id revision store.db) [
                      | err e ↦ err e
                      | ok db ↦ ok (records, record { db = db; tables = p.tables })
                    ]
              ]
            ]

      unfoldable pub reconcile_memories_for :
          Option ℕ
          → Option Text
          → List (MemoryProposal V f.F)
          → Store V
          → Result StorageError (List (MemoryRecord V)) × Store V
      unfolding validate_proposals source_revision refused_revision reconcile_at
      reconcile_memories_for expected_revision completion_job_id proposals store =
          elim (validate_proposals f dimensions proposals) [
            | some e ↦ (err e, store)
            | none ↦ elim (source_revision org_id document_id store.db.documents) [
              | none ↦ (err (unknown_memory_source document_id), store)
              | some revision ↦ elim (refused_revision document_id expected_revision revision) [
                | some e ↦ (err e, store)
                | none ↦ elim (reconcile_at completion_job_id revision proposals store) [
                  | err e ↦ (err e, store)
                  | ok (records, store') ↦ (ok records, store')
                ]
              ]
            ]
          ]
