-- ===== src/Storage/Memories/Context.antt =====
-- What `existing_memories_for_extraction` sends, and that reconciliation finds it again.
use supermemory_rs.Prelude.{
  ℕ, ◌<◌, ◌≤◌, ◌⊎◌, sym, length, length-take, text_lt, Text, text_eq, Bool, true, false, ◌&&◌,
  text_eq_iff, ◌≡◌, refl, List, [], ◌∷◌, some, All, All-map, arith, map, take, inl, inr, Bool-cases,
}
use mathlib.Core.Path.{subst}
use supermemory_rs.Storage.Sql.{select_where, order_by, first_where}
use supermemory_rs.Storage.Sql.Laws.{Among, Among-select, All-among, All-intro}
use supermemory_rs.Storage.Sql.Order.{
  IsOrder, IsOrdered, IsLeading, take-IsLeading, text_lt-IsOrder,
}
use supermemory_rs.Storage.Memories.Store.{Memory, MemoryTables, Clock}
use supermemory_rs.Storage.Memories.Resolve.{in_container, is_live_in, find_memory}
use supermemory_rs.Storage.Memories.Extraction.{
  ExistingMemory, is_extraction_context, is_updated_before, existing_memory,
  existing_memories_for_extraction,
}
use supermemory_rs.Storage.Memories.Current.{IsCurrent, extraction_context_iff}
use supermemory_rs.Storage.Memories.Shown.{All-mapped}

first-Among :
    {R : Type 0} (p : R → Bool) (r : R) (rs : List R)
    → Among r rs
    → p r ≡ true
    → (k : R) × (first_where p rs ≡ some k) × (p k ≡ true)
unfolding first_where
first-Among p r [] m e = absurd m
first-Among p r (x ∷ rs) m e = elim (Bool-cases (p x)) [
  | inl px ↦ rw px (x, refl, px)
  | inr px ↦ rw px (elim m [
    | inl same ↦
        let missed : p r ≡ false = subst (λ k. p k ≡ false) same px in absurd (ground arith)
    | inr among ↦ first-Among p r rs among e
  ])
]

select-Among :
    {R : Type 0} (p : R → Bool) (r : R) (rs : List R)
    → Among r rs
    → p r ≡ true
    → Among r (select_where p rs)
unfolding select_where
select-Among p r [] m e = absurd m
select-Among p r (x ∷ rs) (inr m) e = elim (Bool-cases (p x)) [
  | inl px ↦ rw px (inr (select-Among p r rs m e))
  | inr px ↦ rw px (select-Among p r rs m e)
]
select-Among p r (x ∷ rs) (inl same) e =
    let px : p x ≡ true = subst (λ k. p k ≡ true) (sym same) e in rw px (inl same)

module _ {V : Type 0} where
  is_updated_before-IsOrder : IsOrder (is_updated_before {V = V})
  unfolding is_updated_before
  is_updated_before-IsOrder = record {
    asymmetric = λ a b ab. ground (arith, text_lt-IsOrder.asymmetric a.id b.id);
    between = λ a b c ac. ground (arith, text_lt-IsOrder.between a.id b.id c.id);
  }

  -- The first stands before the second in the order of ORDER BY updated_at DESC, id.
  abbrev pub IsNewer : Memory V → Memory V → Type 0
  IsNewer a b =
      (b.updated_at < a.updated_at) ⊎ ((b.updated_at ≡ a.updated_at) × (text_lt b.id a.id ≡ false))

  abbrev pub NewestFirst : List (Memory V) → Type 0
  NewestFirst [] = Unit
  NewestFirst (m ∷ ms) = All (IsNewer m) ms × NewestFirst ms

  -- The identifiers and the contents of the memories, one after another.
  abbrev pub IsSent : List (Memory V) → List ExistingMemory → Type 0
  IsSent [] [] = Unit
  IsSent [] (e ∷ es) = ⊥
  IsSent (m ∷ ms) [] = ⊥
  IsSent (m ∷ ms) (e ∷ es) = (e.id ≡ m.id) × (e.content ≡ m.content) × IsSent ms es

  pub record IsContext (clock : Clock) (now : ℕ) (org_id container_tag : Text)
      (tables : MemoryTables V) (context : List ExistingMemory) : Type 0 where
    pub leading : List (Memory V)
    pub short : length leading ≤ 100
    pub current :
        All (λ m. Among m tables.memories × IsCurrent clock now org_id container_tag m) leading
    pub ordered : NewestFirst leading
    pub complete :
        All
          (λ m.
            (IsCurrent clock now org_id container_tag m → ⊥)
            ⊎ Among m leading
            ⊎ ((length leading ≡ 100) × All (λ k. IsNewer k m) leading))
          tables.memories
    pub sent : IsSent leading context
    pub found :
        All
          (λ e.
            (m : Memory V) × (find_memory org_id container_tag e.id tables.memories ≡ some m)
            × (m.id ≡ e.id))
          context

  not_before-IsNewer : (a b : Memory V) → is_updated_before b a ≡ false → IsNewer a b
  unfolding is_updated_before
  not_before-IsNewer a b h = ground arith

  IsOrdered-NewestFirst : (ms : List (Memory V)) → IsOrdered is_updated_before ms → NewestFirst ms
  IsOrdered-NewestFirst [] h = tt
  IsOrdered-NewestFirst (m ∷ ms) h =
      (All-map _ _ (λ k late. not_before-IsNewer m k late) ms h.0, IsOrdered-NewestFirst ms h.1)

  existing-IsSent : (ms : List (Memory V)) → IsSent ms (map existing_memory ms)
  unfolding existing_memory
  existing-IsSent [] = tt
  existing-IsSent (m ∷ ms) = (refl, refl, existing-IsSent ms)

  context-found :
      (clock : Clock) (now : ℕ) (org_id container_tag : Text) (tables : MemoryTables V)
      (m : Memory V)
      → Among m tables.memories
      → is_extraction_context clock now org_id container_tag m ≡ true
      → (k : Memory V) × (find_memory org_id container_tag m.id tables.memories ≡ some k)
        × (k.id ≡ m.id)
  unfolding is_extraction_context is_live_in find_memory
  context-found clock now org_id container_tag tables m among meets =
      let (k, found, hit) =
        first-Among (λ k. text_eq k.id m.id && in_container org_id container_tag k) m
          tables.memories among (ground (arith, (text_eq_iff m.id m.id).1 refl)) in
      (k, found, (text_eq_iff k.id m.id).0 (ground (arith, hit)))

  -- The memories that are sent to the provider are the first hundred, newest first and by identifier
  -- where they are equally new, of the rows of the organization and the container that are marked
  -- latest and not forgotten and are not expired: a row that is left out comes before none of those
  -- sent, and is left out only where a hundred are. A parent that names one of them is found when the
  -- answer is reconciled with the same tables.
  pub existing_memories_for_extraction-IsContext :
      (clock : Clock) (now : ℕ) (org_id container_tag : Text) (tables : MemoryTables V)
      → IsContext clock now org_id container_tag tables
          (existing_memories_for_extraction clock now org_id container_tag tables)
  unfolding existing_memories_for_extraction existing_memory
  existing_memories_for_extraction-IsContext clock now org_id container_tag tables = record {
    leading = leading;
    short = omega (arith, length-take 100 (order_by is_updated_before selected));
    current =
        All-map _ _
          (λ m among.
            let (row, meets) = Among-select test m tables.memories among in
            (row, (extraction_context_iff clock now org_id container_tag m).0 meets))
          leading first_hundred.given;
    ordered = IsOrdered-NewestFirst leading first_hundred.ordered;
    complete = All-intro _ tables.memories (λ m among. elim (Bool-cases (test m)) [
      | inr misses ↦ inl (λ current.
          absurd (cc (misses, (extraction_context_iff clock now org_id container_tag m).1 current)))
      | inl meets ↦
          elim (All-among _ m selected first_hundred.complete
            (select-Among test m tables.memories among meets)) [
              | inl listed ↦ inr (inl listed)
              | inr (full, late) ↦
                  inr (
                    inr
                      (full, All-map _ _ (λ k before. not_before-IsNewer k m before) leading late))
            ]
    ]);
    sent = existing-IsSent leading;
    found = All-mapped _ existing_memory leading (
        All-map _ _
          (λ m among.
            let (row, meets) = Among-select test m tables.memories among in
            context-found clock now org_id container_tag tables m row meets)
          leading first_hundred.given);
  }
    where
      test : Memory V → Bool
      test = is_extraction_context clock now org_id container_tag

      selected : List (Memory V)
      selected = select_where (is_extraction_context clock now org_id container_tag) tables.memories

      leading : List (Memory V)
      leading = take 100 (
          order_by is_updated_before
            (select_where (is_extraction_context clock now org_id container_tag) tables.memories))

      first_hundred :
          IsLeading is_updated_before is_updated_before-IsOrder 100
            (select_where (is_extraction_context clock now org_id container_tag) tables.memories)
            leading
      first_hundred = take-IsLeading is_updated_before is_updated_before-IsOrder 100 _
