-- ===== src/Storage/Memories/Extraction.antt =====
-- `existing_memories_for_extraction` of crates/storage/src/memory_jobs.rs: the memories that are sent
-- with a document to the provider.
use supermemory_rs.Prelude.{ℕ, Text, Bool, ◌&&◌, ◌||◌, ◌==◌, ltb, text_lt, List, take, map}
use supermemory_rs.Storage.Sql.{select_where, order_by}
use supermemory_rs.Storage.Memories.Store.{Memory, MemoryTables, Clock, is_unexpired}
use supermemory_rs.Storage.Memories.Resolve.{is_live_in}

pub record ExistingMemory : Type 0 where
  pub id : Text
  pub content : Text

module _ {V : Type 0} where
  unfoldable pub is_extraction_context : Clock → ℕ → Text → Text → Memory V → Bool
  unfolding is_live_in is_unexpired
  is_extraction_context clock now org_id container_tag m =
      is_live_in org_id container_tag m && is_unexpired clock now m.forget_after

  -- ORDER BY updated_at DESC, id
  unfoldable pub is_updated_before : Memory V → Memory V → Bool
  is_updated_before a b =
      ltb b.updated_at a.updated_at || ((a.updated_at == b.updated_at) && text_lt a.id b.id)

  unfoldable pub existing_memory : Memory V → ExistingMemory
  existing_memory m = record { id = m.id; content = m.content }

  unfoldable pub existing_memories_for_extraction :
      Clock → ℕ → Text → Text → MemoryTables V → List ExistingMemory
  unfolding is_extraction_context is_updated_before existing_memory select_where order_by
  existing_memories_for_extraction clock now org_id container_tag tables = map existing_memory (
      take 100 (
        order_by is_updated_before
          (select_where (is_extraction_context clock now org_id container_tag) tables.memories)))
