-- ===== src/Tests/Memories.antt =====
-- crates/storage/src/memories.rs at a container with one memory.
use supermemory_rs.Prelude.{
  is_whitespace, text_eq, ℕ, Text, codes, leb, true, false, ◌≡◌, refl, ◌⊎◌, List, [], ◌∷◌, Option,
  none, some, Result, ok, err, All, Bool, map, ◌&&◌,
}
use supermemory_rs.Storage.State.{extracting, indexing}
use supermemory_rs.Storage.Sql.{first_where, select_where, exists_where, update_where, count_where}
use supermemory_rs.Storage.Tables.{memory, StorageError, memory_not_found}
use supermemory_rs.Storage.Memories.Dedup.{Unicode, MemoryRecord}
use supermemory_rs.Storage.Memories.Store.{Memory, MemoryTables, Store, Clock}
use supermemory_rs.Storage.Memories.Resolve.{MemoryProposal}
use supermemory_rs.Storage.Memories.Reconcile.{reconcile_memories_for}
use supermemory_rs.Storage.Memories.Reconciled.{IsReconciled, reconcile_memories_for-IsReconciled}
use supermemory_rs.Storage.Memories.Lineage.{IsValidTables}
use supermemory_rs.Storage.Memories.Profiles.{
  is_remembered, forget_memory_for, static_profile_for, dynamic_profile_for,
}
use supermemory_rs.Storage.Memories.Forgotten.{is_meant, IsForgotten, forget_memory_for-IsForgotten}
use supermemory_rs.Storage.Memories.Extraction.{existing_memories_for_extraction}
use supermemory_rs.Storage.Memories.Context.{IsContext, existing_memories_for_extraction-IsContext}
use supermemory_rs.Storage.Memories.Shown.{IsProfile, profiles-IsProfile}
use supermemory_rs.Storage.Memories.History.{reconcile, forget_one, stop, next, IsKept, Run-IsKept}
use supermemory_rs.Storage.Memories.Hidden.{IsHidden, forget_memory_for-IsHidden}
use supermemory_rs.Tests.Storage.{db_at}
use supermemory_rs.Tests.Protocol.{counting}

abbrev ascii : Unicode
ascii = record { to_lowercase = λ t. t; is_alphanumeric = λ c. leb 97 c }

abbrev no_dates : Clock
no_dates = record { datetime = λ _. none; timestamp = λ n. n ∷ [] }

abbrev tea : Memory ℕ
tea = record {
  id = codes "mem_a";
  org_id = codes "o";
  container_tag = codes "t";
  content = codes "likes tea";
  metadata = [];
  is_inferred = false;
  is_static = true;
  is_latest = true;
  is_forgotten = false;
  root_memory_id = none;
  parent_memory_id = none;
  version = 1;
  forget_after = none;
  forget_reason = none;
  created_at = 3;
  updated_at = 3;
}

abbrev tables : MemoryTables ℕ
tables = record {
  memories = tea ∷ [];
  sources = (record { memory_id = codes "mem_a"; document_id = codes "d" }) ∷ [];
  relations = [];
  embeddings =
      (record {
        memory_id = codes "mem_a";
        model_id = codes "m";
        dimensions = 1;
        vector = 1 ∷ [];
        active = true;
      })
      ∷ [];
}

abbrev store : Store ℕ
store = record { db = db_at memory indexing extracting; tables = tables }

valid : IsValidTables tables
valid = record {
  distinct = (tt, tt);
  flags = (record { static_latest = λ _. refl; latest_kept = λ _. refl }, tt);
  lineage = ((refl, refl), tt);
  current = ((λ _. ((λ _. refl), tt)), tt);
}

-- The known memory again, and one that updates it.
abbrev proposals : List (MemoryProposal ℕ counting.F)
proposals =
    (record {
      temporary_id = codes "x";
      content = codes "likes  tea!";
      is_inferred = false;
      is_static = false;
      metadata = [];
      parents = [];
      forget_after = none;
      forget_reason = none;
      vector = 1 ∷ [];
    })
    ∷ (record {
      temporary_id = codes "y";
      content = codes "likes coffee";
      is_inferred = false;
      is_static = true;
      metadata = [];
      parents = (record { memory_id = codes "x"; relation = codes "updates" }) ∷ [];
      forget_after = none;
      forget_reason = none;
      vector = 1 ∷ [];
    })
    ∷ []

abbrev fresh : ℕ → Text
fresh n = n ∷ []

abbrev pub outcome : Result StorageError (List (MemoryRecord ℕ)) × Store ℕ
outcome =
    reconcile_memories_for counting ascii no_dates 9 fresh (codes "o") (codes "d") (codes "t")
      (codes "m") 1 (some 1) (some (codes "j")) proposals store

-- The root, the version and the flags of a memory.
abbrev summary : Memory ℕ → Option Text × ℕ × Bool × Bool
summary m = (m.root_memory_id, m.version, m.is_latest, m.is_static)

reconciled :
    map summary (outcome.1).tables.memories
    ≡ (none, 1, false, false) ∷ (some (codes "mem_a"), 2, true, true) ∷ []
unfolding reconcile_memories_for is_whitespace first_where text_eq select_where exists_where
    update_where count_where
reconciled = refl

reconcile_memories_for-IsReconciled_example :
    ((e : StorageError) × (reconcile_memories_for counting ascii no_dates 9 fresh
          (codes "o")
          (codes "d")
          (codes "t")
          (codes "m")
          1
          (some 1)
          (some (codes "j"))
          proposals
          store
        ≡ (err e, store)))
    ⊎ ((records : List (MemoryRecord ℕ)) × (after : Store ℕ) × (reconcile_memories_for counting
            ascii no_dates 9 fresh
            (codes "o")
            (codes "d")
            (codes "t")
            (codes "m")
            1
            (some 1)
            (some (codes "j"))
            proposals
            store
          ≡ (ok records, after))
        × IsReconciled ascii no_dates
            (codes "o")
            (codes "t")
            (codes "d")
            counting
            9
            fresh
            (codes "m")
            1
            (some (codes "j"))
            proposals
            store
            records
            after)
reconcile_memories_for-IsReconciled_example =
    reconcile_memories_for-IsReconciled ascii no_dates (codes "o") (codes "t") (codes "d") counting
      9 fresh (codes "m") 1 (some 1) (some (codes "j")) proposals store valid

forget_memory_for-IsForgotten_example :
    ((forget_memory_for no_dates 9
          (codes "o")
          none
          (some (codes "likes tea"))
          (codes "t")
          none
          tables
        ≡ (err memory_not_found, tables))
      × All
          (λ m.
            (is_meant none (some (codes "likes tea")) m
              && is_remembered no_dates 9 (codes "o") (codes "t") m)
            ≡ false)
          (tea ∷ []))
    ⊎ ((forgotten_id : Text) × (after : MemoryTables ℕ) × (forget_memory_for no_dates 9
            (codes "o")
            none
            (some (codes "likes tea"))
            (codes "t")
            none
            tables
          ≡ (ok forgotten_id, after))
        × IsForgotten no_dates 9
            (codes "o")
            none
            (some (codes "likes tea"))
            (codes "t")
            tables
            forgotten_id
            after)
forget_memory_for-IsForgotten_example =
    forget_memory_for-IsForgotten no_dates 9 (codes "o") none (some (codes "likes tea")) (codes "t")
      none tables valid

profiles-IsProfile_example :
    IsProfile ascii no_dates 9
      (codes "o")
      (codes "t")
      tables
      (static_profile_for ascii no_dates 9 (codes "o") (codes "t") tables)
      (dynamic_profile_for ascii no_dates 9
        (codes "o")
        (codes "t")
        (static_profile_for ascii no_dates 9 (codes "o") (codes "t") tables)
        tables)
profiles-IsProfile_example = profiles-IsProfile ascii no_dates 9 (codes "o") (codes "t") tables

-- The store after the reconciliation, and after the memory of tea is forgotten in it.
abbrev end : Store ℕ
end = record outcome.1 {
  tables =
      (forget_memory_for no_dates 10 (codes "o") (some (codes "mem_a")) none (codes "t") none
        (outcome.1).tables).1;
}

Run-IsKept_example : IsKept counting ascii no_dates store end
Run-IsKept_example =
    Run-IsKept counting ascii no_dates store end
      (next store outcome.1 end
        (reconcile 9 fresh (codes "o") (codes "d") (codes "t") (codes "m") 1 (some 1)
          (some (codes "j")) proposals store)
        (next outcome.1 end end
          (forget_one 10 (codes "o") (some (codes "mem_a")) none (codes "t") none outcome.1)
          (stop end)))
      valid

abbrev without_tea : MemoryTables ℕ
without_tea =
    (forget_memory_for no_dates 9 (codes "o") (some (codes "mem_a")) none (codes "t") none tables).1

is_forgotten :
    forget_memory_for no_dates 9 (codes "o") (some (codes "mem_a")) none (codes "t") none tables
    ≡ (ok (codes "mem_a"), without_tea)
unfolding forget_memory_for first_where text_eq
is_forgotten = refl

forget_memory_for-IsHidden_example :
    IsHidden ascii no_dates 20
      (codes "o")
      (codes "t")
      (λ (_ : ℕ). none)
      (λ _. none)
      (codes "b")
      without_tea
      (codes "mem_a")
forget_memory_for-IsHidden_example =
    forget_memory_for-IsHidden counting ascii no_dates 9 (codes "o") (some (codes "mem_a")) none
      (codes "t") none store (codes "mem_a") without_tea valid is_forgotten
      (record store { tables = without_tea }) (stop (record store { tables = without_tea })) 20
      (codes "o") (codes "t") (λ _. none) (λ _. none) (codes "b")

-- The memory of tea is sent.
existing_tea :
    existing_memories_for_extraction no_dates 9 (codes "o") (codes "t") tables
    ≡ (record { id = codes "mem_a"; content = codes "likes tea" }) ∷ []
unfolding existing_memories_for_extraction text_eq
existing_tea = refl

existing_memories_for_extraction-IsContext_example :
    IsContext no_dates 9
      (codes "o")
      (codes "t")
      tables
      (existing_memories_for_extraction no_dates 9 (codes "o") (codes "t") tables)
existing_memories_for_extraction-IsContext_example =
    existing_memories_for_extraction-IsContext no_dates 9 (codes "o") (codes "t") tables
