-- ===== src/Storage/Memories/Insertion.antt =====
-- What the body of the loop over the proposals does to the tables.
use mathlib.Core.Path.{subst}
use supermemory_rs.Prelude.{
  ℕ, Text, text_eq, text_eq_iff, Bool, true, false, ◌≡◌, refl, sym, List, [], ◌∷◌, ◌++◌, OnOk, All,
  All-append, All-map, arith, Bool-cases, inl, inr,
}
use supermemory_rs.Storage.Sql.{exists_where}
use supermemory_rs.Storage.Sql.Laws.{Among, All-among, exists-false, All-intro}
use supermemory_rs.Storage.Publish.{Float32}
use supermemory_rs.Storage.Memories.Store.{
  Memory, MemorySource, MemoryEmbedding, MemoryTables, same_source, add_source,
}
use supermemory_rs.Storage.Memories.Resolve.{MemoryProposal, ResolvedParent}
use supermemory_rs.Storage.Memories.Reconcile.{
  memory_embedding, insert_memory, link_row, breaks_constraint,
}
use supermemory_rs.Storage.Memories.Lineage.{
  Later, IsLatest, Persists, Persists-trans, Persists-snoc, HasLineage, IsValidTables,
  insert-IsValidMemories, embed-IsValidMemories, Among-left, Among-last,
}
use supermemory_rs.Storage.Memories.Growth.{IsParent, IsLinked, link_parents-IsLinked}

-- The document is a source of the memory.
pub record HasSource (sources : List MemorySource) (document_id id : Text) : Type 0 where
  pub row : MemorySource
  pub among : Among row sources
  pub of_memory : row.memory_id ≡ id
  pub of_document : row.document_id ≡ document_id

-- No source is lost.
abbrev pub Sourced : List MemorySource → List MemorySource → Type 0
Sourced before after = All (λ s. Among s after) before

pub Sourced-refl : (ss : List MemorySource) → Sourced ss ss
Sourced-refl ss = All-intro _ ss (λ s m. m)

pub Sourced-snoc : (ss new : List MemorySource) → Sourced ss (ss ++ new)
Sourced-snoc ss new = All-intro _ ss (λ s m. Among-left s ss new m)

pub Sourced-trans : (a b c : List MemorySource) → Sourced a b → Sourced b c → Sourced a c
Sourced-trans a b c h k = All-map _ _ (λ s m. All-among _ s b k m) a h

pub HasSource-later :
    (a b : List MemorySource) (document_id id : Text)
    → Sourced a b
    → HasSource a document_id id
    → HasSource b document_id id
HasSource-later a b document_id id h k = record {
  row = k.row;
  among = All-among _ k.row a h k.among;
  of_memory = k.of_memory;
  of_document = k.of_document;
}

exists-hit :
    {R : Type 0} (p : R → Bool) (rs : List R)
    → exists_where p rs ≡ true
    → (r : R) × Among r rs × (p r ≡ true)
unfolding exists_where
exists-hit p [] h = absurd (cc h)
exists-hit p (r ∷ rs) h = elim (Bool-cases (p r)) [
  | inl e ↦ (r, inl refl, e)
  | inr e ↦ let (k, m, hit) = exists-hit p rs (ground arith) in (k, inr m, hit)
]

pub add_source-Sourced :
    (new : MemorySource) (ss : List MemorySource) → Sourced ss (add_source new ss)
unfolding add_source
add_source-Sourced new ss = elim (Bool-cases (exists_where (same_source new) ss)) [
  | inl e ↦ rw e (Sourced-refl ss)
  | inr e ↦ rw e (Sourced-snoc ss (new ∷ []))
]

pub add_source-HasSource :
    (new : MemorySource) (ss : List MemorySource)
    → HasSource (add_source new ss) new.document_id new.memory_id
unfolding add_source same_source
add_source-HasSource new ss = elim (Bool-cases (exists_where (same_source new) ss)) [
  | inr e ↦
      rw e (record { row = new; among = Among-last new ss; of_memory = refl; of_document = refl })
  | inl e ↦
      let (row, among, hit) = exists-hit (same_source new) ss e in
      rw e (record {
        row = row;
        among = among;
        of_memory = (text_eq_iff row.memory_id new.memory_id).0 (ground (arith, hit));
        of_document = (text_eq_iff row.document_id new.document_id).0 (ground (arith, hit));
      })
]

module _ {V : Type 0} where
  pub record IsInserted (document_id : Text) (row : Memory V) (before after : MemoryTables V)
      : Type 0 where
    pub persists : Persists before.memories after.memories
    pub valid : IsValidTables before → IsValidTables after
    pub added : Later after.memories row
    pub sourced : HasSource after.sources document_id row.id
    pub keeps_sources : Sourced before.sources after.sources

  -- A row under its parents, as `new_memory` makes it.
  pub record IsRow (ms : List (Memory V)) (row : Memory V) : Type 0 where
    pub latest : row.is_latest ≡ true
    pub kept : row.is_forgotten ≡ false
    pub lineage : HasLineage ms row

  module _ (now : ℕ) (document_id org_id container_tag : Text) (tables : MemoryTables V)
      (parents : List ResolvedParent)
      (resolved : All (IsParent org_id container_tag tables.memories) parents) (row : Memory V)
      (fresh : All (λ m. text_eq m.id row.id ≡ false) tables.memories) where
    apart : All (λ p. text_eq row.id p.id ≡ false) parents
    apart =
        All-map _ _
          (λ p h. ground (
            arith,
            All-among _ h.row tables.memories fresh h.among,
            h.same_id,
            text_eq_iff h.row.id row.id,
            text_eq_iff row.id p.id,
          ))
          parents resolved

    abbrev widened : MemoryTables V
    widened = record tables {
      memories = tables.memories ++ row ∷ [];
      sources = tables.sources ++ (record { memory_id = row.id; document_id = document_id }) ∷ [];
    }

    pub link_row-IsLinked : IsLinked row.id widened (link_row now document_id parents row tables)
    unfolding link_row
    link_row-IsLinked = link_parents-IsLinked now row.id parents widened apart

    widened-IsValidTables : IsRow tables.memories row → IsValidTables tables → IsValidTables widened
    widened-IsValidTables is_row =
        insert-IsValidMemories tables.memories tables.embeddings row fresh
          (record { static_latest = λ _. is_row.latest; latest_kept = λ _. is_row.kept })
          is_row.latest is_row.lineage

    row-IsLatest : IsRow tables.memories row → IsLatest widened.memories row.id
    row-IsLatest is_row =
        All-append _ tables.memories (row ∷ [])
          (All-map _ _ (λ m other same. absurd (cc (other, same))) tables.memories fresh)
          ((λ _. is_row.latest), tt)

    pub embedded-IsInserted :
        (e : MemoryEmbedding)
        → e.memory_id ≡ row.id
        → IsRow tables.memories row
        → IsInserted document_id row tables (record (link_row now document_id parents row tables) {
          embeddings = (link_row now document_id parents row tables).embeddings ++ e ∷ [];
        })
    embedded-IsInserted e of_row is_row = record {
      persists =
          Persists-trans tables.memories widened.memories linked.memories
            (Persists-snoc tables.memories (row ∷ [])) step.persists;
      valid = λ valid.
          embed-IsValidMemories linked.memories linked.embeddings e
            (subst (IsLatest linked.memories) (sym of_row) (step.latest (row-IsLatest is_row)))
            (step.valid (widened-IsValidTables is_row valid));
      added =
          All-among (Later linked.memories) row widened.memories step.persists
            (Among-last row tables.memories);
      sourced =
          subst (λ ss. HasSource ss document_id row.id) (sym step.same_sources)
            (record {
              row = record { memory_id = row.id; document_id = document_id };
              among = Among-last _ tables.sources;
              of_memory = refl;
              of_document = refl;
            });
      keeps_sources =
          subst (Sourced tables.sources) (sym step.same_sources) (Sourced-snoc tables.sources _);
    }
      where
        linked : MemoryTables V
        linked = link_row now document_id parents row tables

        step : IsLinked row.id widened linked
        step = link_row-IsLinked

  unused_id :
      (document_id : Text) (dimensions : ℕ) (row : Memory V) (before linked : MemoryTables V)
      → breaks_constraint document_id dimensions row before linked ≡ false
      → All (λ m. text_eq m.id row.id ≡ false) before.memories
  unfolding breaks_constraint
  unused_id document_id dimensions row before linked e =
      exists-false (λ m. text_eq m.id row.id) before.memories (ground arith)

  pub insert_memory-IsInserted :
      (f : Float32) (now : ℕ) (document_id model_id org_id container_tag : Text) (dimensions : ℕ)
      (parents : List ResolvedParent) (proposal : MemoryProposal V f.F) (row : Memory V)
      (tables : MemoryTables V)
      → All (IsParent org_id container_tag tables.memories) parents
      → IsRow tables.memories row
      → OnOk
          (IsInserted document_id row tables)
          (insert_memory f now document_id model_id dimensions parents proposal row tables)
  unfolding insert_memory memory_embedding
  insert_memory-IsInserted f now document_id model_id org_id container_tag dimensions parents
        proposal row tables resolved is_row =
      elim (Bool-cases (
        breaks_constraint document_id dimensions row tables
          (link_row now document_id parents row tables))) [
            | inl e ↦ rw (e, OnOk, insert_memory) tt
            | inr e ↦
                rw (e, OnOk, insert_memory)
                  (embedded-IsInserted now document_id org_id container_tag tables parents resolved
                    row
                    (unused_id document_id dimensions row tables
                      (link_row now document_id parents row tables) e)
                    (memory_embedding f row.id model_id dimensions proposal.vector) refl is_row)
          ]
