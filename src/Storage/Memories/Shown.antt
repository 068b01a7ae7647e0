-- ===== src/Storage/Memories/Shown.antt =====
-- What the profiles show.
use supermemory_rs.Prelude.{
  ℕ, ◌≤◌, Text, text_eq, text_eq_iff, Bool, true, false, ◌≡◌, refl, ap, List, [], ◌∷◌, ◌++◌, All,
  All-map, All-append, arith, inl, inr, take, map, length,
}
use mathlib.Core.Path.{subst}
use supermemory_rs.Storage.Sql.{select_where, order_by}
use supermemory_rs.Storage.Sql.Laws.{Among, All-among, All-intro}
use supermemory_rs.Storage.Sql.Keys.{Distinct}
use supermemory_rs.Storage.Memories.Dedup.{
  Unicode, MemoryRecord, is_seen, key_of, deduplicate_memories,
}
use supermemory_rs.Storage.Memories.Kept.{
  IsNew, IsDeduplicated, deduplicate_memories-IsDeduplicated,
}
use supermemory_rs.Storage.Memories.Store.{Memory, MemoryTables, Clock, read_memory}
use supermemory_rs.Storage.Memories.Profiles.{
  is_better_known, is_newer, is_static_row, is_dynamic_row, static_profile_for, dynamic_profile_for,
}
use supermemory_rs.Storage.Memories.Current.{IsCurrent, static-IsCurrent, dynamic-IsCurrent}
use supermemory_rs.Storage.Memories.Known.{All-selected}
use supermemory_rs.Storage.Sql.Order.{All-order_by, All-take}

pub All-mapped {κ} :
    {A B : Type 0} (P : B → Type κ) (f : A → B) (xs : List A)
    → All (λ x. P (f x)) xs
    → All P (map f xs)
All-mapped P f [] h = tt
All-mapped P f (x ∷ xs) h = (h.0, All-mapped P f xs h.1)

pub Among-mapped :
    {A B : Type 0} (f : A → B) (x : A) (xs : List A) → Among x xs → Among (f x) (map f xs)
Among-mapped f x [] m = m
Among-mapped f x (y ∷ xs) (inl e) = inl (ap f e)
Among-mapped f x (y ∷ xs) (inr m) = inr (Among-mapped f x xs m)

pub Distinct-append :
    {R : Type 0} (key : R → Text) (xs ys : List R)
    → Distinct key xs
    → Distinct key ys
    → All (λ x. All (λ y. text_eq (key y) (key x) ≡ false) ys) xs
    → Distinct key (xs ++ ys)
Distinct-append key [] ys h k apart = k
Distinct-append key (x ∷ xs) ys h k apart =
    (All-append _ xs ys h.0 apart.0, Distinct-append key xs ys h.1 k apart.1)

unseen_key :
    (k t : Text) (seen : List Text) → is_seen t seen ≡ false → Among k seen → text_eq k t ≡ false
unfolding is_seen
unseen_key k t [] h m = absurd m
unseen_key k t (s ∷ seen) h (inl same) =
    let e : text_eq s t ≡ false = ground arith in subst (λ x. text_eq x t ≡ false) same e
unseen_key k t (s ∷ seen) h (inr m) = unseen_key k t seen (ground arith) m

module _ {V : Type 0} (unicode : Unicode) (clock : Clock) (now : ℕ)
    (org_id container_tag : Text) where
  -- A record of a row that meets a condition.
  abbrev IsRead : (Memory V → Bool) → MemoryTables V → MemoryRecord V → Type 0
  IsRead p tables r =
      (m : Memory V) × Among m tables.memories × (p m ≡ true) × (r ≡ read_memory clock m)

  abbrev read_rows :
      (Memory V → Bool) → (Memory V → Memory V → Bool) → MemoryTables V → List (MemoryRecord V)
  read_rows p before tables =
      map (read_memory clock) (take 300 (order_by before (select_where p tables.memories)))

  deduplicated-IsRead :
      (p : Memory V → Bool) (before : Memory V → Memory V → Bool) (excluded : List Text)
      (tables : MemoryTables V)
      → All
          (IsRead p tables)
          (deduplicate_memories unicode (read_rows p before tables) 100 excluded)
  deduplicated-IsRead p before excluded tables =
      All-map _ _ (λ r among. All-among (IsRead p tables) r (read_rows p before tables) rows among)
        _ (deduplicate_memories-IsDeduplicated unicode _ 100 excluded).given
    where
      rows : All (IsRead p tables) (read_rows p before tables)
      rows = All-mapped _ (read_memory clock) _ (
          All-take _ 300 _ (
            All-order_by _ before _
              (All-map _ _ (λ m h. (m, h.0, h.1, refl)) _ (All-selected p tables.memories))))

  -- A record of a current memory with the flag.
  abbrev pub IsShown : Bool → MemoryTables V → MemoryRecord V → Type 0
  IsShown static tables r =
      (m : Memory V) × Among m tables.memories
      × IsCurrent clock now org_id container_tag m
      × (m.is_static ≡ static)
      × (r.id ≡ m.id)
      × (r.memory ≡ m.content)

  read-IsShown :
      (static : Bool) (p : Memory V → Bool) (tables : MemoryTables V)
      → ((m : Memory V)
          → p m ≡ true
          → IsCurrent clock now org_id container_tag m × (m.is_static ≡ static))
      → (r : MemoryRecord V) → IsRead p tables r
      → IsShown static tables r
  unfolding read_memory
  read-IsShown static p tables current r (m, among, hit, read) =
      (m, among, (current m hit).0, (current m hit).1, ap (λ x. x.id) read, ap (λ x. x.memory) read)

  pub record IsProfile (tables : MemoryTables V) (static_memories dynamic : List (MemoryRecord V))
      : Type 0 where
    pub static_short : length static_memories ≤ 100
    pub dynamic_short : length dynamic ≤ 100
    pub static_rows : All (IsShown true tables) static_memories
    pub dynamic_rows : All (IsShown false tables) dynamic
    pub distinct : Distinct (key_of unicode) (static_memories ++ dynamic)

  -- A profile shows at most a hundred static and a hundred dynamic memories, each with the identifier
  -- and the content of a row of the organization and the container that is marked latest and not
  -- forgotten, that is static or not as it is listed, and that has no date to be forgotten by or one
  -- that reads as a later time; and no two of them, in one list or across both, have the same
  -- normalized content.
  pub profiles-IsProfile :
      (tables : MemoryTables V)
      → IsProfile tables (static_profile_for unicode clock now org_id container_tag tables) (
          dynamic_profile_for unicode clock now org_id container_tag
            (static_profile_for unicode clock now org_id container_tag tables)
            tables)
  unfolding static_profile_for dynamic_profile_for
  profiles-IsProfile tables = record {
    static_short = of_static.short;
    dynamic_short = of_dynamic.short;
    static_rows =
        All-map _ _ (read-IsShown true _ tables (static-IsCurrent clock now org_id container_tag)) _
          (deduplicated-IsRead _ (is_better_known tables.sources) [] tables);
    dynamic_rows =
        All-map _ _ (read-IsShown false _ tables (dynamic-IsCurrent clock now org_id container_tag))
          _ (deduplicated-IsRead _ is_newer _ tables);
    distinct =
        Distinct-append (key_of unicode) static_memories _ of_static.distinct of_dynamic.distinct (
          All-intro _ static_memories
            (λ s among. All-map _ _ (λ d new. other s d among new) _ of_dynamic.new));
  }
    where
      static_memories : List (MemoryRecord V)
      static_memories = static_profile_for unicode clock now org_id container_tag tables

      of_static :
          IsDeduplicated unicode
            (read_rows
              (is_static_row clock now org_id container_tag)
              (is_better_known tables.sources)
              tables)
            100
            []
            static_memories
      of_static = deduplicate_memories-IsDeduplicated unicode _ 100 []

      of_dynamic :
          IsDeduplicated unicode
            (read_rows (is_dynamic_row clock now org_id container_tag) is_newer tables)
            100
            (map (key_of unicode) static_memories)
            (dynamic_profile_for unicode clock now org_id container_tag static_memories tables)
      of_dynamic = deduplicate_memories-IsDeduplicated unicode _ 100 _

      other :
          (s d : MemoryRecord V)
          → Among s static_memories
          → IsNew unicode (map (key_of unicode) static_memories) d
          → text_eq (key_of unicode d) (key_of unicode s) ≡ false
      other s d among new = ground (
        arith,
        unseen_key (key_of unicode s) (key_of unicode d) (map (key_of unicode) static_memories)
            new.unsaid (Among-mapped (key_of unicode) s static_memories among),
        text_eq_iff (key_of unicode s) (key_of unicode d),
        text_eq_iff (key_of unicode d) (key_of unicode s),
      )
