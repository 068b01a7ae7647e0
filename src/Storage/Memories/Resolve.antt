-- ===== src/Storage/Memories/Resolve.antt =====
-- The queries and statements of `reconcile_memories_for` in crates/storage/src/memories.rs and
-- crates/storage/src/lib.rs: which memories are known, and which are a proposal's parents.
use supermemory_rs.Prelude.{
  ℕ, ◌+◌, Text, text_eq, Bool, false, not, ◌&&◌, ◌||◌, List, [], ◌∷◌, Option, none, some, Result,
  ok, err, ◌==◌, ltb, if◌then◌else◌, codes, text_lt,
}
use supermemory_rs.Storage.Sql.{order_by, select_where, first_where}
use supermemory_rs.Storage.Tables.{Metadata, StorageError, no_row}
use supermemory_rs.Storage.Memories.Dedup.{Unicode, MemoryRecord, normalized_memory}
use supermemory_rs.Storage.Memories.Store.{
  Memory, MemoryTables, Clock, add_relation, read_memory, supersede,
}

pub record MemoryParent : Type 0 where
  pub memory_id : Text
  pub relation : Text

pub record MemoryProposal (V F : Type 0) : Type 0 where
  pub temporary_id : Text
  pub content : Text
  pub is_inferred : Bool
  pub is_static : Bool
  pub metadata : Metadata V
  pub parents : List MemoryParent
  pub forget_after : Option Text
  pub forget_reason : Option Text
  pub vector : List F

pub record ResolvedParent : Type 0 where
  pub id : Text
  pub relation : Text
  pub root_memory_id : Option Text
  pub version : ℕ

-- A map from texts to texts, of which the newest entry for a key counts.
abbrev pub TextMap : Type 0
TextMap = List (Text × Text)

unfoldable pub get : Text → TextMap → Option Text
get key [] = none
get key ((k, v) ∷ rest) = let found = get key rest in if text_eq k key then some v else found

unfoldable pub get_or_same : TextMap → Text → Text
unfolding get
get_or_same map id = elim (get id map) [ none ↦ id | some known ↦ known ]

-- `entry(…).or_insert(…)` for each pair in turn: the first for a key stays.
unfoldable pub or_insert : List (Text × Text) → TextMap → TextMap
unfolding get
or_insert [] map = map
or_insert ((key, id) ∷ rest) map = elim (get key map) [
  | some known ↦ or_insert rest map
  | none ↦ or_insert rest ((key, id) ∷ map)
]

abbrev pub head : {A : Type 0} → List A → Option A
head [] = none
head (x ∷ xs) = some x

unfoldable pub derives : List ResolvedParent → Bool
derives [] = false
derives (p ∷ ps) = text_eq p.relation (codes "derives") || derives ps

-- The root of the lineage that a memory stands in.
abbrev pub root_or : Text → Option Text → Text
root_or id none = id
root_or id (some root) = root

unfoldable pub root_under : Option ResolvedParent → Option Text
root_under none = none
root_under (some p) = some (root_or p.id p.root_memory_id)

unfoldable pub id_of : Option ResolvedParent → Option Text
id_of none = none
id_of (some p) = some p.id

unfoldable pub version_under : Option ResolvedParent → ℕ
version_under none = 1
version_under (some p) = p.version + 1

module _ {V : Type 0} where
  unfoldable pub in_container : Text → Text → Memory V → Bool
  in_container org_id container_tag m =
      text_eq m.org_id org_id && text_eq m.container_tag container_tag

  -- ORDER BY version DESC, updated_at DESC, id
  unfoldable pub precedes : Memory V → Memory V → Bool
  precedes a b =
      ltb b.version a.version
      || ((a.version == b.version)
          && (ltb b.updated_at a.updated_at
              || ((a.updated_at == b.updated_at) && text_lt a.id b.id)))

  -- Each memory's normalized content with its id.
  unfoldable pub keyed : Unicode → List (Memory V) → List (Text × Text)
  unfolding normalized_memory
  keyed unicode [] = []
  keyed unicode (m ∷ ms) = (normalized_memory unicode m.content, m.id) ∷ keyed unicode ms

  unfoldable pub is_live_in : Text → Text → Memory V → Bool
  unfolding in_container
  is_live_in org_id container_tag m =
      in_container org_id container_tag m && m.is_latest && not m.is_forgotten

  unfoldable pub active_memory_ids_by_content : Unicode → Text → Text → List (Memory V) → TextMap
  unfolding or_insert keyed precedes order_by is_live_in
  active_memory_ids_by_content unicode org_id container_tag memories =
      or_insert
        (keyed unicode
          (order_by precedes (select_where (is_live_in org_id container_tag) memories)))
        []

  -- WHERE id=?1 AND org_id=?2 AND container_tag=?3
  unfoldable pub find_memory : Text → Text → Text → List (Memory V) → Option (Memory V)
  unfolding in_container
  find_memory org_id container_tag id =
      first_where (λ m. text_eq m.id id && in_container org_id container_tag m)

  unfoldable pub resolve_memory_parents :
      Text → Text → List (Memory V) → TextMap → List MemoryParent → List ResolvedParent
  unfolding find_memory get_or_same
  resolve_memory_parents org_id container_tag memories temporary_ids [] = []
  resolve_memory_parents org_id container_tag memories temporary_ids (p ∷ ps) =
      let rest = resolve_memory_parents org_id container_tag memories temporary_ids ps in
      elim (find_memory org_id container_tag (get_or_same temporary_ids p.memory_id) memories) [
        | none ↦ rest
        | some m ↦
            record {
              id = m.id;
              relation = p.relation;
              root_memory_id = m.root_memory_id;
              version = m.version;
            }
            ∷ rest
      ]

  -- The body of the loop over the parents.
  unfoldable pub link_parent : ℕ → Text → ResolvedParent → MemoryTables V → MemoryTables V
  unfolding add_relation supersede
  link_parent now id parent tables =
      let linked = record tables {
        relations =
            add_relation
              (record { parent_id = parent.id; child_id = id; relation = parent.relation })
              tables.relations;
      } in
      if text_eq parent.relation (codes "updates") then supersede now parent.id linked else linked

  unfoldable pub link_parents : ℕ → Text → List ResolvedParent → MemoryTables V → MemoryTables V
  unfolding link_parent
  link_parents now id [] tables = tables
  link_parents now id (p ∷ ps) tables = link_parents now id ps (link_parent now id p tables)

  -- The first memory with the id.
  unfoldable pub read_memory_by_id :
      Clock → List (Memory V) → Text → Result StorageError (MemoryRecord V)
  unfolding read_memory
  read_memory_by_id clock memories id = elim (first_where (λ m. text_eq m.id id) memories) [
    | none ↦ err no_row
    | some m ↦ ok (read_memory clock m)
  ]

  unfoldable pub read_memories :
      Clock → List (Memory V) → List Text → Result StorageError (List (MemoryRecord V))
  unfolding read_memory_by_id
  read_memories clock memories [] = ok []
  read_memories clock memories (id ∷ ids) =
      let rest = read_memories clock memories ids in
      elim (read_memory_by_id clock memories id) [
        | err e ↦ err e
        | ok r ↦ elim rest [ err e ↦ err e | ok rs ↦ ok (r ∷ rs) ]
      ]
