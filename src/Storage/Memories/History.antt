-- ===== src/Storage/Memories/History.antt =====
-- Every sequence of reconciliations and forgettings.
use supermemory_rs.Prelude.{ℕ, Text, inl, inr, List, Option}
use supermemory_rs.Storage.Publish.{Float32}
use supermemory_rs.Storage.Memories.Dedup.{Unicode}
use supermemory_rs.Storage.Memories.Store.{Store, Clock}
use supermemory_rs.Storage.Memories.Resolve.{MemoryProposal}
use supermemory_rs.Storage.Memories.Reconcile.{reconcile_memories_for}
use supermemory_rs.Storage.Memories.Reconciled.{reconcile_memories_for-IsReconciled}
use supermemory_rs.Storage.Memories.Profiles.{forget_memory_for}
use supermemory_rs.Storage.Memories.Forgotten.{forget_memory_for-IsForgotten}
use supermemory_rs.Storage.Memories.Lineage.{Persists, Persists-refl, Persists-trans, IsValidTables}

module _ {V : Type 0} (f : Float32) (unicode : Unicode) (clock : Clock) where
  -- What a client or the extraction worker does to the memories.
  pub data Step : Store V → Store V → Type 0 where
    reconcile :
        (now : ℕ) (ids : ℕ → Text) (org_id document_id container_tag model_id : Text)
        (dimensions : ℕ) (expected_revision : Option ℕ) (completion_job_id : Option Text)
        (proposals : List (MemoryProposal V f.F)) (store : Store V)
        → Step store
            (reconcile_memories_for f unicode clock now ids org_id document_id container_tag
              model_id dimensions expected_revision completion_job_id proposals store).1
    forget_one :
        (now : ℕ) (org_id : Text) (id content : Option Text) (container_tag : Text)
        (reason : Option Text) (store : Store V)
        → Step store (record store {
          tables =
              (forget_memory_for clock now org_id id content container_tag reason store.tables).1;
        })

  pub data Run : Store V → Store V → Type 0 where
    stop : (s : Store V) → Run s s
    next : (a b c : Store V) → Step a b → Run b c → Run a c

  pub record IsKept (before after : Store V) : Type 0 where
    pub valid : IsValidTables after.tables
    pub persists : Persists before.tables.memories after.tables.memories

  Step-IsKept : (a b : Store V) → Step a b → IsValidTables a.tables → IsKept a b
  Step-IsKept a b
        (reconcile now ids org_id document_id container_tag model_id dimensions expected_revision
          completion_job_id proposals store)
        valid =
      elim (reconcile_memories_for-IsReconciled unicode clock org_id container_tag document_id f now
        ids model_id dimensions expected_revision completion_job_id proposals store valid) [
          | inl (e, same) ↦
              rw same (record { valid = valid; persists = Persists-refl store.tables.memories })
          | inr (rs, after, same, h) ↦ rw same (record { valid = h.valid; persists = h.persists })
        ]
  Step-IsKept a b (forget_one now org_id id content container_tag reason store) valid =
      elim (forget_memory_for-IsForgotten clock now org_id id content container_tag reason
        store.tables valid) [
          | inl (same, absent) ↦
              rw same (record { valid = valid; persists = Persists-refl store.tables.memories })
          | inr (forgotten_id, after, same, h) ↦
              rw same (record { valid = h.valid; persists = h.persists })
        ]

  -- However memories are reconciled and forgotten, the memories stay valid, none is lost, each keeps its
  -- text, its container and its place in its lineage, and none that is superseded or forgotten is
  -- revived.
  pub Run-IsKept : (a b : Store V) → Run a b → IsValidTables a.tables → IsKept a b
  Run-IsKept a b (stop s) valid = record {
    valid = valid;
    persists = Persists-refl s.tables.memories;
  }
  Run-IsKept a c (next s b t step run) valid =
      let first = Step-IsKept s b step valid in
      let rest = Run-IsKept b t run first.valid in
      record {
        valid = rest.valid;
        persists =
            Persists-trans s.tables.memories b.tables.memories t.tables.memories first.persists
              rest.persists;
      }
