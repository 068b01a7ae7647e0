-- ===== src/Storage/Memories/Rounds.antt =====
-- What the loop over the proposals keeps, round by round.
use supermemory_rs.Prelude.{
  Pairs, Pairs-snoc, Pairs-map, ℕ, ◌+◌, Text, ◌≡◌, refl, sym, ap, ◌∙◌, List, [], ◌∷◌, ◌++◌, OnOk,
  Result-cases, All, All-map, Option-cases, inl, inr, codes,
}
use mathlib.Core.Path.{subst}
use mathlib.Core.List.{append_assoc, append-nil}
use supermemory_rs.Storage.Publish.{Float32}
use supermemory_rs.Storage.Memories.Dedup.{Unicode, normalized_memory}
use supermemory_rs.Storage.Memories.Store.{Memory, MemorySource, MemoryTables, Clock, add_source}
use supermemory_rs.Storage.Memories.Resolve.{
  MemoryProposal, ResolvedParent, get, resolve_memory_parents,
}
use supermemory_rs.Storage.Memories.Reconcile.{
  Progress, new_memory, insert_memory, recall, memorize, reconcile_proposal, reconcile_proposals,
  started,
}
use supermemory_rs.Storage.Memories.Lineage.{Persists, Persists-refl, Persists-trans, IsValidTables}
use supermemory_rs.Storage.Memories.Growth.{
  IsParent, row-HasLineage, resolve_memory_parents-IsParent,
}
use supermemory_rs.Storage.Memories.Insertion.{
  HasSource, HasSource-later, Sourced, Sourced-refl, Sourced-trans, add_source-Sourced,
  add_source-HasSource, IsInserted, IsRow, insert_memory-IsInserted,
}
use supermemory_rs.Storage.Memories.Known.{
  Says, Says-later, get-All, active_memory_ids_by_content-Says,
}

-- The normalized contents of the proposals.
abbrev pub keys_of : {V F : Type 0} → Unicode → List (MemoryProposal V F) → List Text
keys_of unicode [] = []
keys_of unicode (x ∷ proposals) = normalized_memory unicode x.content ∷ keys_of unicode proposals

module _ {V : Type 0} (unicode : Unicode) (org_id container_tag document_id : Text) where
  -- A memory that says what a proposal says, of which the document is a source.
  pub record IsStored (tables : MemoryTables V) (key id : Text) : Type 0 where
    pub says : Says unicode org_id container_tag tables.memories key id
    pub sourced : HasSource tables.sources document_id id

  -- The transaction after proposals with the given normalized contents.
  pub record IsProgress (before : MemoryTables V) (keys : List Text) (p : Progress V) : Type 0 where
    pub valid : IsValidTables p.tables
    pub persists : Persists before.memories p.tables.memories
    pub keeps_sources : Sourced before.sources p.tables.sources
    pub known :
        All (λ kv. Says unicode org_id container_tag p.tables.memories kv.0 kv.1) p.exact_memories
    pub stored : Pairs (IsStored p.tables) keys p.record_ids

  IsStored-later :
      (a b : MemoryTables V) (key id : Text)
      → Persists a.memories b.memories
      → Sourced a.sources b.sources
      → IsStored a key id
      → IsStored b key id
  IsStored-later a b key id persists sourced h = record {
    says = Says-later unicode org_id container_tag a.memories b.memories key id persists h.says;
    sourced = HasSource-later a.sources b.sources document_id id sourced h.sourced;
  }

  recall-IsProgress :
      {F : Type 0} (before : MemoryTables V) (keys : List Text) (p : Progress V)
      (proposal : MemoryProposal V F) (key existing_id : Text)
      → Says unicode org_id container_tag p.tables.memories key existing_id
      → IsProgress before keys p
      → IsProgress before (keys ++ key ∷ []) (recall document_id existing_id proposal p)
  unfolding recall
  recall-IsProgress before keys p proposal key existing_id says h =
      let source : MemorySource = record { memory_id = existing_id; document_id = document_id } in
      let kept = add_source-Sourced source p.tables.sources in
      record {
        valid = h.valid;
        persists = h.persists;
        keeps_sources = Sourced-trans before.sources p.tables.sources _ h.keeps_sources kept;
        known = h.known;
        stored =
            Pairs-snoc _ keys p.record_ids key existing_id
              (Pairs-map _ _ keys p.record_ids
                (λ k id s. record {
                  says = s.says;
                  sourced =
                      HasSource-later p.tables.sources (add_source source p.tables.sources)
                        document_id id kept s.sourced;
                })
                h.stored)
              (record { says = says; sourced = add_source-HasSource source p.tables.sources });
      }

  -- A new memory in the tables, and its entries in the maps.
  inserted-IsProgress :
      (before : MemoryTables V) (keys : List Text) (p p' : Progress V) (row : Memory V)
      → IsInserted document_id row p.tables p'.tables
      → row.org_id ≡ org_id
      → row.container_tag ≡ container_tag
      → p'.exact_memories ≡ (normalized_memory unicode row.content, row.id) ∷ p.exact_memories
      → p'.record_ids ≡ p.record_ids ++ row.id ∷ []
      → IsProgress before keys p
      → IsProgress before (keys ++ normalized_memory unicode row.content ∷ []) p'
  inserted-IsProgress before keys p p' row inserted org tag exact ids h =
      let says : Says unicode org_id container_tag p'.tables.memories
          (normalized_memory unicode row.content) row.id =
        let (now_row, among, later) = inserted.added in
        record {
          row = now_row;
          among = among;
          same_id = later.same_id;
          same_org = later.same_org ∙ org;
          same_tag = later.same_tag ∙ tag;
          same_key = ap (normalized_memory unicode) later.same_content;
        } in
      record {
        valid = inserted.valid h.valid;
        persists =
            Persists-trans before.memories p.tables.memories p'.tables.memories h.persists
              inserted.persists;
        keeps_sources =
            Sourced-trans before.sources p.tables.sources p'.tables.sources h.keeps_sources
              inserted.keeps_sources;
        known = subst (All _) (sym exact) (
          says,
          All-map _ _
              (λ kv s.
                Says-later unicode org_id container_tag p.tables.memories p'.tables.memories kv.0
                  kv.1 inserted.persists s)
              p.exact_memories h.known,
        );
        stored = subst (Pairs (IsStored p'.tables) _) (sym ids) (
            Pairs-snoc _ keys p.record_ids (normalized_memory unicode row.content) row.id
              (Pairs-map _ _ keys p.record_ids
                (λ k id s.
                  IsStored-later p.tables p'.tables k id inserted.persists inserted.keeps_sources s)
                h.stored)
              (record { says = says; sourced = inserted.sourced }));
      }

  pub started-IsProgress :
      (tables : MemoryTables V)
      → IsValidTables tables
      → IsProgress tables [] (started unicode org_id container_tag tables)
  unfolding started
  started-IsProgress tables valid = record {
    valid = valid;
    persists = Persists-refl tables.memories;
    keeps_sources = Sourced-refl tables.sources;
    known = active_memory_ids_by_content-Says unicode org_id container_tag tables.memories;
    stored = tt;
  }

  module _ (f : Float32) (clock : Clock) (now : ℕ) (ids : ℕ → Text) (model_id : Text)
      (dimensions : ℕ) where
    new_memory-IsRow :
        (ms : List (Memory V)) (id : Text) (parents : List ResolvedParent)
        (proposal : MemoryProposal V f.F)
        → All (IsParent org_id container_tag ms) parents
        → IsRow ms (new_memory clock now id org_id container_tag parents proposal)
    unfolding new_memory
    new_memory-IsRow ms id parents proposal resolved = record {
      latest = refl;
      kept = refl;
      lineage =
          row-HasLineage org_id container_tag ms parents
            (new_memory clock now id org_id container_tag parents proposal) resolved refl refl refl
            refl refl;
    }

    memorize-IsProgress :
        (index : ℕ) (before : MemoryTables V) (keys : List Text) (p : Progress V)
        (proposal : MemoryProposal V f.F)
        → IsProgress before keys p
        → OnOk (IsProgress before (keys ++ normalized_memory unicode proposal.content ∷ [])) (
            memorize f unicode clock now ids org_id document_id container_tag model_id dimensions
              index proposal p)
    unfolding memorize new_memory
    memorize-IsProgress index before keys p proposal h =
        let parents =
          resolve_memory_parents org_id container_tag p.tables.memories p.temporary_ids
            proposal.parents in
        let resolved =
          resolve_memory_parents-IsParent org_id container_tag p.tables.memories p.temporary_ids
            proposal.parents in
        let row =
          new_memory clock now (codes "mem_" ++ ids index) org_id container_tag parents proposal in
        let inserted =
          insert_memory-IsInserted f now document_id model_id org_id container_tag dimensions
            parents proposal row p.tables resolved
            (new_memory-IsRow p.tables.memories _ parents proposal resolved) in
        elim (Result-cases
          (insert_memory f now document_id model_id dimensions parents proposal row p.tables)) [
            | inr (e, refused) ↦ rw (refused, OnOk, memorize) tt
            | inl (tables, taken) ↦
                rw (taken, OnOk, memorize)
                  (inserted-IsProgress before keys p _ row (rw taken at inserted) refl refl refl
                    refl h)
          ]

    reconcile_proposal-IsProgress :
        (index : ℕ) (before : MemoryTables V) (keys : List Text) (p : Progress V)
        (proposal : MemoryProposal V f.F)
        → IsProgress before keys p
        → OnOk (IsProgress before (keys ++ normalized_memory unicode proposal.content ∷ [])) (
            reconcile_proposal f unicode clock now ids org_id document_id container_tag model_id
              dimensions index proposal p)
    unfolding reconcile_proposal
    reconcile_proposal-IsProgress index before keys p proposal h =
        elim (Option-cases (get (normalized_memory unicode proposal.content) p.exact_memories)) [
          | inl e ↦
              rw (e, OnOk, reconcile_proposal) (memorize-IsProgress index before keys p proposal h)
          | inr (existing_id, e) ↦
              rw (e, OnOk, reconcile_proposal)
                (recall-IsProgress before keys p proposal _ existing_id
                  (get-All _ _ existing_id p.exact_memories e h.known) h)
        ]

    pub reconcile_proposals-IsProgress :
        (index : ℕ) (before : MemoryTables V) (keys : List Text) (p : Progress V)
        (proposals : List (MemoryProposal V f.F))
        → IsProgress before keys p
        → OnOk (IsProgress before (keys ++ keys_of unicode proposals)) (
            reconcile_proposals f unicode clock now ids org_id document_id container_tag model_id
              dimensions index proposals p)
    unfolding reconcile_proposals
    reconcile_proposals-IsProgress index before keys p [] h =
        subst (λ ks. IsProgress before ks p) (sym (append-nil keys)) h
    reconcile_proposals-IsProgress index before keys p (x ∷ proposals) h =
        let round = reconcile_proposal-IsProgress index before keys p x h in
        elim (Result-cases (
          reconcile_proposal f unicode clock now ids org_id document_id container_tag model_id
            dimensions index x p)) [
              | inr (e, refused) ↦ rw (refused, OnOk, reconcile_proposals) tt
              | inl (p', taken) ↦
                  rw (taken, OnOk, reconcile_proposals)
                    (subst
                      (λ ks. OnOk (IsProgress before ks) (
                        reconcile_proposals f unicode clock now ids org_id document_id container_tag
                          model_id dimensions (index + 1) proposals p'))
                      (append_assoc keys (normalized_memory unicode x.content ∷ [])
                        (keys_of unicode proposals))
                      (reconcile_proposals-IsProgress (index + 1) before
                        (keys ++ normalized_memory unicode x.content ∷ []) p' proposals
                        (rw taken at round)))
            ]
