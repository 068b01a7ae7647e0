-- ===== src/Storage/Memories/Forgotten.antt =====
-- What forgetting a memory does to the tables.
use supermemory_rs.Prelude.{
  ℕ, Text, text_eq, Bool, true, false, ◌&&◌, ◌≡◌, refl, ◌⊎◌, List, [], ◌∷◌, Option, none, some, ok,
  err, All, arith, Bool-cases, Option-cases, inl, inr,
}
use supermemory_rs.Storage.Sql.{first_where}
use supermemory_rs.Storage.Sql.Laws.{Among, All-update, All-intro}
use supermemory_rs.Storage.Tables.{memory_not_found}
use supermemory_rs.Storage.Memories.Store.{Memory, MemoryTables, Clock, deactivate}
use supermemory_rs.Storage.Memories.Profiles.{
  is_remembered, find_forgettable, forgotten, forget, forget_memory_for,
}
use supermemory_rs.Storage.Memories.Lineage.{
  IsRetired, Persists, Persists-update, IsValidTables, retire-IsValidMemories,
}
use supermemory_rs.Storage.Memories.Growth.{first-hit}

pub first-none :
    {R : Type 0} (p : R → Bool) (rs : List R) → first_where p rs ≡ none → All (λ r. p r ≡ false) rs
unfolding first_where
first-none p [] h = tt
first-none p (r ∷ rs) h = elim (Bool-cases (p r)) [
  | inl e ↦ absurd (cc (let clash : some r ≡ none = rw e at h in clash))
  | inr e ↦ (e, first-none p rs (rw e at h))
]

-- The first row that meets two conditions, if any does.
first_cases :
    {R : Type 0} (p q : R → Bool) (rs : List R)
    → ((first_where (λ r. p r && q r) rs ≡ none) × All (λ r. (p r && q r) ≡ false) rs)
      ⊎ ((r : R) × (first_where (λ r. p r && q r) rs ≡ some r)
          × Among r rs
          × (p r ≡ true)
          × (q r ≡ true))
first_cases p q rs = elim (Option-cases (first_where (λ r. p r && q r) rs)) [
  | inl e ↦ inl (e, first-none _ rs e)
  | inr (r, e) ↦
      let (among, hit) = first-hit _ rs e in
      inr (r, e, among, ground (arith, hit), ground (arith, hit))
]

-- The memory that the id names, or else the content.
unfoldable pub is_meant : {V : Type 0} → Option Text → Option Text → Memory V → Bool
is_meant (some id) content m = text_eq m.id id
is_meant none (some content) m = text_eq m.content content
is_meant none none m = false

module _ {V : Type 0} (clock : Clock) (now : ℕ) where
  forgotten-IsRetired :
      (reason : Option Text) (m : Memory V) → IsRetired m (forgotten clock now reason m)
  unfolding forgotten
  forgotten-IsRetired reason m = record {
    later = record {
      same_id = refl;
      same_org = refl;
      same_tag = refl;
      same_content = refl;
      same_root = refl;
      same_parent = refl;
      same_version = refl;
      stays_old = λ _. refl;
      stays_forgotten = λ _. refl;
    };
    old = refl;
    plain = refl;
  }

  find_cases :
      (org_id container_tag : Text) (ms : List (Memory V)) (id content : Option Text)
      → ((find_forgettable clock now org_id id content container_tag ms ≡ none)
          × All
              (λ m.
                (is_meant id content m && is_remembered clock now org_id container_tag m) ≡ false)
              ms)
        ⊎ ((m : Memory V) × (find_forgettable clock now org_id id content container_tag ms ≡ some m)
            × Among m ms
            × (is_meant id content m ≡ true)
            × (is_remembered clock now org_id container_tag m ≡ true))
  unfolding find_forgettable is_meant
  find_cases org_id container_tag ms (some id) content =
      first_cases (λ m. text_eq m.id id) (is_remembered clock now org_id container_tag) ms
  find_cases org_id container_tag ms none (some content) =
      first_cases (λ m. text_eq m.content content) (is_remembered clock now org_id container_tag) ms
  find_cases org_id container_tag ms none none = inl (refl, All-intro _ ms (λ m _. refl))

  module _ (org_id : Text) (id content : Option Text) (container_tag : Text) where
    pub record IsForgotten (before : MemoryTables V) (forgotten_id : Text) (after : MemoryTables V)
        : Type 0 where
      pub row : Memory V
      pub among : Among row before.memories
      pub named : row.id ≡ forgotten_id
      pub meant : is_meant id content row ≡ true
      pub remembered : is_remembered clock now org_id container_tag row ≡ true
      pub valid : IsValidTables after
      pub persists : Persists before.memories after.memories
      pub gone : All (λ m. text_eq m.id forgotten_id ≡ true → m.is_forgotten ≡ true) after.memories
      pub silent :
          All (λ e. text_eq e.memory_id forgotten_id ≡ true → e.active ≡ false) after.embeddings
      pub same_sources : after.sources ≡ before.sources
      pub same_relations : after.relations ≡ before.relations

    forget-IsForgotten :
        (reason : Option Text) (before : MemoryTables V) (row : Memory V)
        → IsValidTables before
        → Among row before.memories
        → is_meant id content row ≡ true
        → is_remembered clock now org_id container_tag row ≡ true
        → IsForgotten before row.id (forget clock now reason row.id before)
    unfolding forget deactivate forgotten
    forget-IsForgotten reason before row valid among meant remembered = record {
      row = row;
      among = among;
      named = refl;
      meant = meant;
      remembered = remembered;
      valid =
          retire-IsValidMemories row.id (forgotten clock now reason) (forgotten-IsRetired reason)
            before.memories before.embeddings valid;
      persists = Persists-update _ _ before.memories (λ m. (forgotten-IsRetired reason m).later);
      gone =
          All-update _ _ _ _ before.memories (λ m _ _ _. refl)
            (λ m _ miss same. absurd (cc (miss, same)))
            (All-intro (λ _. Unit {0}) before.memories (λ _ _. tt));
      silent =
          All-update _ _ _ _ before.embeddings (λ e _ _ _. refl)
            (λ e _ miss same. absurd (cc (miss, same)))
            (All-intro (λ _. Unit {0}) before.embeddings (λ _ _. tt));
      same_sources = refl;
      same_relations = refl;
    }

    -- Forgetting fails where no memory of the container is meant and remembered, and changes nothing
    -- then. Else it forgets one that is: it is forgotten and no longer the latest, its vectors are
    -- inactive, the memories stay valid and keep their texts and lineages, and no source and no relation
    -- changes.
    pub forget_memory_for-IsForgotten :
        (reason : Option Text) (tables : MemoryTables V)
        → IsValidTables tables
        → ((forget_memory_for clock now org_id id content container_tag reason tables
              ≡ (err memory_not_found, tables))
            × All
                (λ m.
                  (is_meant id content m && is_remembered clock now org_id container_tag m) ≡ false)
                tables.memories)
          ⊎ ((forgotten_id : Text) × (after : MemoryTables V) × (forget_memory_for clock now org_id
                  id content container_tag reason tables
                ≡ (ok forgotten_id, after))
              × IsForgotten tables forgotten_id after)
    unfolding forget_memory_for
    forget_memory_for-IsForgotten reason tables valid =
        elim (find_cases org_id container_tag tables.memories id content) [
          | inl (e, absent) ↦ inl (rw (e, forget_memory_for) refl, absent)
          | inr (m, e, among, meant, remembered) ↦ inr (
            m.id,
            forget clock now reason m.id tables,
            rw (e, forget_memory_for) refl,
            forget-IsForgotten reason tables m valid among meant remembered,
          )
        ]
