-- ===== src/Storage/Memories/Store.antt =====
-- The tables of migrations/0004_memories.sql, and the statements that crates/storage runs on them.
-- The dates and times of SQLite are parameters.
use supermemory_rs.Prelude.{
  ℕ, Text, text_eq, Bool, true, false, ◌&&◌, ◌||◌, not, List, [], ◌∷◌, ◌++◌, Option, none, some,
  ltb, codes, if◌then◌else◌,
}
use supermemory_rs.Storage.Sql.{update_where, exists_where}
use supermemory_rs.Storage.Tables.{Metadata, Db}
use supermemory_rs.Storage.Memories.Dedup.{MemoryRecord}

pub record Memory (V : Type 0) : Type 0 where
  pub id : Text
  pub org_id : Text
  pub container_tag : Text
  pub content : Text
  pub metadata : Metadata V
  pub is_inferred : Bool
  pub is_static : Bool
  pub is_latest : Bool
  pub is_forgotten : Bool
  pub root_memory_id : Option Text
  pub parent_memory_id : Option Text
  pub version : ℕ
  pub forget_after : Option Text
  pub forget_reason : Option Text
  pub created_at : ℕ
  pub updated_at : ℕ

pub record MemorySource : Type 0 where
  pub memory_id : Text
  pub document_id : Text

pub record MemoryRelation : Type 0 where
  pub parent_id : Text
  pub child_id : Text
  pub relation : Text

pub record MemoryEmbedding : Type 0 where
  pub memory_id : Text
  pub model_id : Text
  pub dimensions : ℕ
  pub vector : List ℕ  -- bytes
  pub active : Bool

pub record MemoryTables (V : Type 0) : Type 0 where
  pub memories : List (Memory V)
  pub sources : List MemorySource
  pub relations : List MemoryRelation
  pub embeddings : List MemoryEmbedding

-- The documents with their jobs, and the memories.
pub record Store (V : Type 0) : Type 0 where
  pub db : Db V
  pub tables : MemoryTables V

-- `datetime` reads a text as a time, where it is one; `timestamp` writes a time.
pub record Clock : Type 0 where
  pub datetime : Text → Option ℕ
  pub timestamp : ℕ → Text

-- datetime(…) > CURRENT_TIMESTAMP
unfoldable pub is_future : Clock → ℕ → Text → Bool
is_future clock now value = elim (clock.datetime value) [ none ↦ false | some time ↦ ltb now time ]

-- forget_after IS NULL OR datetime(forget_after) > CURRENT_TIMESTAMP
unfoldable pub is_unexpired : Clock → ℕ → Option Text → Bool
unfolding is_future
is_unexpired clock now none = true
is_unexpired clock now (some value) = is_future clock now value

unfoldable pub valid_future_datetime : Clock → ℕ → Option Text → Option Text
unfolding is_future
valid_future_datetime clock now none = none
valid_future_datetime clock now (some value) =
    if is_future clock now value then some value else none

unfoldable pub same_source : MemorySource → MemorySource → Bool
same_source new old = text_eq old.memory_id new.memory_id && text_eq old.document_id new.document_id

-- INSERT OR IGNORE INTO memory_sources
unfoldable pub add_source : MemorySource → List MemorySource → List MemorySource
unfolding same_source
add_source new sources =
    if exists_where (same_source new) sources then sources else sources ++ new ∷ []

-- CHECK (relation IN ('updates', 'extends', 'derives'))
unfoldable pub is_relation : Text → Bool
is_relation relation =
    text_eq relation (codes "updates")
    || text_eq relation (codes "extends")
    || text_eq relation (codes "derives")

unfoldable pub same_relation : MemoryRelation → MemoryRelation → Bool
same_relation new old =
    text_eq old.parent_id new.parent_id
    && text_eq old.child_id new.child_id
    && text_eq old.relation new.relation

-- INSERT OR IGNORE INTO memory_relations: a row that breaks a constraint is left out.
unfoldable pub add_relation : MemoryRelation → List MemoryRelation → List MemoryRelation
unfolding same_relation is_relation
add_relation new relations =
    if exists_where (same_relation new) relations || not (is_relation new.relation)
    then relations
    else relations ++ new ∷ []

-- UPDATE memory_embeddings SET active=0 WHERE memory_id=…
unfoldable pub deactivate : Text → List MemoryEmbedding → List MemoryEmbedding
deactivate id = update_where (λ e. text_eq e.memory_id id) (λ e. record e { active = false })

module _ {V : Type 0} where
  unfoldable pub read_memory : Clock → Memory V → MemoryRecord V
  read_memory clock m = record {
    id = m.id;
    memory = m.content;
    metadata = m.metadata;
    is_inferred = m.is_inferred;
    is_static = m.is_static;
    is_latest = m.is_latest;
    is_forgotten = m.is_forgotten;
    root_memory_id = m.root_memory_id;
    parent_memory_id = m.parent_memory_id;
    version = m.version;
    forget_after = m.forget_after;
    forget_reason = m.forget_reason;
    created_at = clock.timestamp m.created_at;
    updated_at = clock.timestamp m.updated_at;
  }

  unfoldable pub superseded : ℕ → Memory V → Memory V
  superseded now m = record m { is_latest = false; is_static = false; updated_at = now }

  -- The two updates of a memory that a new one updates.
  unfoldable pub supersede : ℕ → Text → MemoryTables V → MemoryTables V
  unfolding superseded deactivate
  supersede now id tables = record tables {
    memories = update_where (λ m. text_eq m.id id) (superseded now) tables.memories;
    embeddings = deactivate id tables.embeddings;
  }
