-- ===== src/Storage/Memories/Profiles.antt =====
-- The profiles and the forgetting of crates/storage/src/memories.rs. `as_array` and `as_str` are
-- the methods of JSON values.
use supermemory_rs.Prelude.{
  ℕ, Text, text_eq, Bool, true, false, not, ◌&&◌, ◌||◌, List, [], ◌∷◌, ◌++◌, Option, none, some,
  Result, ok, err, ◌==◌, ltb, if◌then◌else◌, codes, take, map,
}
use supermemory_rs.Storage.Sql.{order_by, update_where, select_where, first_where, count_where}
use supermemory_rs.Storage.Tables.{Metadata, StorageError, memory_not_found}
use supermemory_rs.Storage.Upsert.{option_text_eq}
use supermemory_rs.Storage.Memories.Dedup.{Unicode, MemoryRecord, key_of, deduplicate_memories}
use supermemory_rs.Storage.Memories.Store.{
  Memory, MemorySource, MemoryTables, Clock, is_unexpired, read_memory, deactivate,
}
use supermemory_rs.Storage.Memories.Resolve.{in_container}

-- `reason.unwrap_or("user_requested")`
unfoldable pub reason_or_default : Option Text → Text
reason_or_default none = codes "user_requested"
reason_or_default (some reason) = reason

module _ {V : Type 0} where
  -- (SELECT COUNT(*) FROM memory_sources WHERE memory_id=memories.id)
  unfoldable pub source_count : List MemorySource → Memory V → ℕ
  source_count sources m = count_where (λ s. text_eq s.memory_id m.id) sources

  -- ORDER BY the number of sources DESC, updated_at DESC
  unfoldable pub is_better_known : List MemorySource → Memory V → Memory V → Bool
  unfolding source_count
  is_better_known sources a b =
      ltb (source_count sources b) (source_count sources a)
      || ((source_count sources a == source_count sources b) && ltb b.updated_at a.updated_at)

  -- ORDER BY updated_at DESC
  unfoldable pub is_newer : Memory V → Memory V → Bool
  is_newer a b = ltb b.updated_at a.updated_at

  -- Not forgotten, and not expired.
  unfoldable pub is_remembered : Clock → ℕ → Text → Text → Memory V → Bool
  unfolding in_container is_unexpired
  is_remembered clock now org_id container_tag m =
      in_container org_id container_tag m
      && not m.is_forgotten
      && is_unexpired clock now m.forget_after

  -- The conditions of the profiles, for the given value of is_static.
  unfoldable pub is_static_row : Clock → ℕ → Text → Text → Memory V → Bool
  unfolding is_remembered
  is_static_row clock now org_id container_tag m =
      m.is_static && m.is_latest && is_remembered clock now org_id container_tag m

  unfoldable pub is_dynamic_row : Clock → ℕ → Text → Text → Memory V → Bool
  unfolding is_remembered
  is_dynamic_row clock now org_id container_tag m =
      not m.is_static && m.is_latest && is_remembered clock now org_id container_tag m

  -- `Map::get`
  unfoldable pub get_value : Text → Metadata V → Option V
  get_value key [] = none
  get_value key ((k, v) ∷ rest) =
      let found = get_value key rest in if text_eq k key then some v else found

  unfoldable pub any_is : (V → Option Text) → Text → List V → Bool
  unfolding option_text_eq
  any_is as_str bucket [] = false
  any_is as_str bucket (v ∷ vs) = option_text_eq (as_str v) (some bucket) || any_is as_str bucket vs

  unfoldable pub is_in_bucket :
      (V → Option (List V)) → (V → Option Text) → Text → MemoryRecord V → Bool
  unfolding get_value any_is
  is_in_bucket as_array as_str bucket m = elim (get_value (codes "buckets") m.metadata) [
    | none ↦ false
    | some v ↦ elim (as_array v) [ none ↦ false | some vs ↦ any_is as_str bucket vs ]
  ]

  module _ (unicode : Unicode) (clock : Clock) (now : ℕ) (org_id container_tag : Text) where
    unfoldable pub static_profile_for : MemoryTables V → List (MemoryRecord V)
    unfolding order_by is_better_known is_static_row read_memory deduplicate_memories
    static_profile_for tables =
        deduplicate_memories unicode
          (map (read_memory clock) (
            take 300 (
              order_by (is_better_known tables.sources)
                (select_where (is_static_row clock now org_id container_tag) tables.memories))))
          100 []

    unfoldable pub dynamic_profile_for :
        List (MemoryRecord V) → MemoryTables V → List (MemoryRecord V)
    unfolding order_by is_newer is_dynamic_row read_memory deduplicate_memories
    dynamic_profile_for static_memories tables =
        deduplicate_memories unicode
          (map (read_memory clock) (
            take 300 (
              order_by is_newer
                (select_where (is_dynamic_row clock now org_id container_tag) tables.memories))))
          100 (map (key_of unicode) static_memories)

    unfoldable pub bucket_profile_for :
        (V → Option (List V)) → (V → Option Text) → Text → MemoryTables V → List (MemoryRecord V)
    unfolding select_where is_in_bucket static_profile_for dynamic_profile_for
    bucket_profile_for as_array as_str bucket tables =
        let static_memories = static_profile_for tables in
        let dynamic = dynamic_profile_for static_memories tables in
        take 100 (select_where (is_in_bucket as_array as_str bucket) (static_memories ++ dynamic))

  unfoldable pub find_forgettable :
      Clock → ℕ → Text → Option Text → Option Text → Text → List (Memory V) → Option (Memory V)
  unfolding is_remembered
  find_forgettable clock now org_id (some id) content container_tag memories =
      first_where (λ m. text_eq m.id id && is_remembered clock now org_id container_tag m) memories
  find_forgettable clock now org_id none (some content) container_tag memories =
      first_where (λ m. text_eq m.content content && is_remembered clock now org_id container_tag m)
        memories
  find_forgettable clock now org_id none none container_tag memories = none

  unfoldable pub forgotten : Clock → ℕ → Option Text → Memory V → Memory V
  unfolding reason_or_default
  forgotten clock now reason m = record m {
    is_forgotten = true;
    is_latest = false;
    is_static = false;
    forget_after = some (clock.timestamp now);
    forget_reason = some (reason_or_default reason);
    updated_at = now;
  }

  unfoldable pub forget : Clock → ℕ → Option Text → Text → MemoryTables V → MemoryTables V
  unfolding forgotten deactivate
  forget clock now reason id tables = record tables {
    memories = update_where (λ m. text_eq m.id id) (forgotten clock now reason) tables.memories;
    embeddings = deactivate id tables.embeddings;
  }

  unfoldable pub forget_memory_for :
      Clock
      → ℕ
      → Text
      → Option Text
      → Option Text
      → Text
      → Option Text
      → MemoryTables V
      → Result StorageError Text × MemoryTables V
  unfolding find_forgettable forget
  forget_memory_for clock now org_id id content container_tag reason tables =
      elim (find_forgettable clock now org_id id content container_tag tables.memories) [
        | none ↦ (err memory_not_found, tables)
        | some m ↦ (ok m.id, forget clock now reason m.id tables)
      ]
