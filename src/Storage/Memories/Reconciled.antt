-- ===== src/Storage/Memories/Reconciled.antt =====
-- What a reconciliation of memories does to the store.
use supermemory_rs.Prelude.{
  Pairs, ℕ, Text, text_eq, text_eq_iff, true, false, ◌≡◌, refl, ap, ◌⊎◌, List, [], ◌∷◌, Option,
  some, ok, err, OnOk, Result-cases, arith, Option-cases, inl, inr,
}
use supermemory_rs.Storage.Sql.{first_where}
use supermemory_rs.Storage.Sql.Laws.{Among, All-among}
use supermemory_rs.Storage.Sql.Keys.{Distinct}
use supermemory_rs.Storage.Tables.{StorageError, unknown_memory_source}
use supermemory_rs.Storage.Publish.{Float32}
use supermemory_rs.Storage.Memories.Dedup.{Unicode, MemoryRecord, key_of}
use supermemory_rs.Storage.Memories.Store.{Memory, MemoryTables, Store, Clock, read_memory}
use supermemory_rs.Storage.Memories.Resolve.{MemoryProposal, read_memory_by_id, read_memories}
use supermemory_rs.Storage.Memories.Reconcile.{
  reconcile_proposals, started, complete_source, reconcile_at, validate_proposals, source_revision,
  refused_revision, reconcile_memories_for,
}
use supermemory_rs.Storage.Memories.Lineage.{Persists, IsValidTables}
use supermemory_rs.Storage.Memories.Insertion.{HasSource, Sourced}
use supermemory_rs.Storage.Memories.Rounds.{
  IsStored, keys_of, reconcile_proposals-IsProgress, started-IsProgress,
}

-- The row of a primary key is found.
pub first-Distinct :
    {R : Type 0} (key : R → Text) (r : R) (rs : List R)
    → Distinct key rs
    → Among r rs
    → first_where (λ k. text_eq (key k) (key r)) rs ≡ some r
unfolding first_where
first-Distinct key r [] h m = absurd m
first-Distinct key r (x ∷ rs) h (inl same) =
    let hit : text_eq (key x) (key r) ≡ true = (text_eq_iff (key x) (key r)).1 (ap key same) in
    rw hit (ap some same)
first-Distinct key r (x ∷ rs) h (inr m) =
    let other : text_eq (key r) (key x) ≡ false = All-among _ r rs h.0 m in
    let miss : text_eq (key x) (key r) ≡ false =
      ground (arith, other, text_eq_iff (key x) (key r), text_eq_iff (key r) (key x)) in
    rw miss (first-Distinct key r rs h.1 m)

module _ {V : Type 0} (unicode : Unicode) (clock : Clock)
    (org_id container_tag document_id : Text) where
  -- The record of a memory of the container that says what a proposal says, with its source.
  pub record IsAnswer (tables : MemoryTables V) (key : Text) (r : MemoryRecord V) : Type 0 where
    pub row : Memory V
    pub among : Among row tables.memories
    pub read : r ≡ read_memory clock row
    pub same_org : row.org_id ≡ org_id
    pub same_tag : row.container_tag ≡ container_tag
    pub same_key : key_of unicode r ≡ key
    pub sourced : HasSource tables.sources document_id r.id

  answer :
      (tables : MemoryTables V) (key id : Text)
      → IsValidTables tables
      → IsStored unicode org_id container_tag document_id tables key id
      → (r : MemoryRecord V) × (read_memory_by_id clock tables.memories id ≡ ok r)
        × IsAnswer tables key r
  unfolding read_memory_by_id read_memory
  answer tables key id valid h =
      let row = h.says.row in
      let found : first_where (λ m. text_eq m.id row.id) tables.memories ≡ some row =
        first-Distinct (λ m. m.id) row tables.memories valid.distinct h.says.among in
      (
        read_memory clock row,
        rw (← h.says.same_id, found, read_memory_by_id) refl,
        record {
          row = row;
          among = h.says.among;
          read = refl;
          same_org = h.says.same_org;
          same_tag = h.says.same_tag;
          same_key = h.says.same_key;
          sourced = rw h.says.same_id h.sourced;
        },
      )

  answers :
      (tables : MemoryTables V) (keys ids : List Text)
      → IsValidTables tables
      → Pairs (IsStored unicode org_id container_tag document_id tables) keys ids
      → (rs : List (MemoryRecord V)) × (read_memories clock tables.memories ids ≡ ok rs)
        × Pairs (IsAnswer tables) keys rs
  unfolding read_memories
  answers tables [] [] valid h = ([], refl, tt)
  answers tables [] (id ∷ ids) valid h = absurd h
  answers tables (key ∷ keys) [] valid h = absurd h
  answers tables (key ∷ keys) (id ∷ ids) valid h =
      let (r, read, is_answer) = answer tables key id valid h.0 in
      let (rs, read_rest, rest) = answers tables keys ids valid h.1 in
      (r ∷ rs, rw (read, read_rest, read_memories) refl, (is_answer, rest))

  module _ (f : Float32) (now : ℕ) (ids : ℕ → Text) (model_id : Text) (dimensions : ℕ) where
    pub record IsReconciled (completion_job_id : Option Text)
        (proposals : List (MemoryProposal V f.F)) (before : Store V)
        (records : List (MemoryRecord V)) (after : Store V) : Type 0 where
      pub valid : IsValidTables after.tables
      pub persists : Persists before.tables.memories after.tables.memories
      pub keeps_sources : Sourced before.tables.sources after.tables.sources
      pub answered : Pairs (IsAnswer after.tables) (keys_of unicode proposals) records
      pub revision : ℕ
      pub current : source_revision org_id document_id before.db.documents ≡ some revision
      pub completed :
          complete_source now completion_job_id document_id revision before.db ≡ ok after.db

    reconcile_at-IsReconciled :
        (completion_job_id : Option Text) (revision : ℕ) (proposals : List (MemoryProposal V f.F))
        (store : Store V)
        → source_revision org_id document_id store.db.documents ≡ some revision
        → IsValidTables store.tables
        → OnOk
            (λ out. IsReconciled completion_job_id proposals store out.0 out.1)
            (reconcile_at f unicode clock now ids org_id document_id container_tag model_id
              dimensions completion_job_id revision proposals store)
    unfolding reconcile_at
    reconcile_at-IsReconciled completion_job_id revision proposals store current valid =
        let progress =
          reconcile_proposals-IsProgress unicode org_id container_tag document_id f clock now ids
            model_id dimensions 0 store.tables [] _ proposals
            (started-IsProgress unicode org_id container_tag document_id store.tables valid) in
        elim (Result-cases (
          reconcile_proposals f unicode clock now ids org_id document_id container_tag model_id
            dimensions 0 proposals (started unicode org_id container_tag store.tables))) [
              | inr (e, refused) ↦ rw (refused, OnOk, reconcile_at) tt
              | inl (p, taken) ↦
                  let done = rw taken at progress in
                  let (rs, read, answered) =
                    answers p.tables _ p.record_ids done.valid done.stored in
                  elim (Result-cases
                    (complete_source now completion_job_id document_id revision store.db)) [
                      | inr (e, stale) ↦ rw (taken, read, stale, OnOk, reconcile_at) tt
                      | inl (db, completed) ↦
                          rw (taken, read, completed, OnOk, reconcile_at)
                            (record {
                              valid = done.valid;
                              persists = done.persists;
                              keeps_sources = done.keeps_sources;
                              answered = answered;
                              revision = revision;
                              current = current;
                              completed = completed;
                            })
                    ]
            ]

    -- A reconciliation refuses, and then the store is as it was, or it returns one record for each
    -- proposal, in order: a memory of the container with the proposal's normalized content, of which
    -- the document is a source. The memories stay valid: no id is used twice, a child has the version
    -- after its parent's, the root of its lineage and its container, a static memory is the latest,
    -- the latest is not forgotten, and an active vector belongs to the latest. No memory and no source
    -- is lost, a memory keeps its text and its lineage, and none that is superseded or forgotten is
    -- revived.
    pub reconcile_memories_for-IsReconciled :
        (expected_revision : Option ℕ) (completion_job_id : Option Text)
        (proposals : List (MemoryProposal V f.F)) (store : Store V)
        → IsValidTables store.tables
        → ((e : StorageError) × (reconcile_memories_for f unicode clock now ids org_id document_id
                container_tag model_id dimensions expected_revision completion_job_id proposals
                store
              ≡ (err e, store)))
          ⊎ ((records : List (MemoryRecord V)) × (after : Store V) × (reconcile_memories_for f
                  unicode clock now ids org_id document_id container_tag model_id dimensions
                  expected_revision completion_job_id proposals store
                ≡ (ok records, after))
              × IsReconciled completion_job_id proposals store records after)
    unfolding reconcile_memories_for
    reconcile_memories_for-IsReconciled expected_revision completion_job_id proposals store valid =
        elim (Option-cases (validate_proposals f dimensions proposals)) [
          | inr (e, invalid) ↦ inl (e, rw (invalid, reconcile_memories_for) refl)
          | inl fine ↦ elim (Option-cases (source_revision org_id document_id store.db.documents)) [
            | inl unknown ↦
                inl (
                  unknown_memory_source document_id,
                  rw (fine, unknown, reconcile_memories_for) refl,
                )
            | inr (revision, current) ↦
                elim (Option-cases (refused_revision document_id expected_revision revision)) [
                  | inr (e, stale) ↦ inl (e, rw (fine, current, stale, reconcile_memories_for) refl)
                  | inl expected ↦
                      let outcome =
                        reconcile_at-IsReconciled completion_job_id revision proposals store current
                          valid in
                      elim (Result-cases (
                        reconcile_at f unicode clock now ids org_id document_id container_tag
                          model_id dimensions completion_job_id revision proposals store)) [
                            | inr (e, refused) ↦ inl (
                              e,
                              rw (fine, current, expected, refused, reconcile_memories_for) refl,
                            )
                            | inl (out, taken) ↦ inr (
                              out.0,
                              out.1,
                              rw (fine, current, expected, taken, reconcile_memories_for) refl,
                              rw taken at outcome,
                            )
                          ]
                ]
          ]
        ]
