-- ===== src/Storage/Memories/Hidden.antt =====
-- A forgotten memory is in no profile again.
use supermemory_rs.Prelude.{
  ℕ, Text, text_eq, text_eq_iff, Bool, true, false, ◌≡◌, sym, ap, ◌∙◌, inl, inr, List, Option, ok,
  All, All-map, All-append, Bool-cases,
}
use mathlib.Core.Path.{subst}
use supermemory_rs.Storage.Sql.Laws.{Among, All-among}
use supermemory_rs.Storage.Sql.Keys.{Distinct-key}
use supermemory_rs.Storage.Publish.{Float32}
use supermemory_rs.Storage.Memories.Dedup.{Unicode, MemoryRecord}
use supermemory_rs.Storage.Memories.Store.{Memory, MemoryTables, Store, Clock}
use supermemory_rs.Storage.Memories.Profiles.{
  static_profile_for, dynamic_profile_for, forget_memory_for, is_in_bucket, bucket_profile_for,
}
use supermemory_rs.Storage.Memories.Forgotten.{IsForgotten, forget_memory_for-IsForgotten}
use supermemory_rs.Storage.Memories.Shown.{IsShown, IsProfile, profiles-IsProfile}
use supermemory_rs.Storage.Memories.Known.{select-All}
use supermemory_rs.Storage.Memories.Lineage.{Later, Persists, IsValidTables}
use supermemory_rs.Storage.Memories.History.{Run, Run-IsKept}
use supermemory_rs.Storage.Sql.Order.{All-take}

module _ {V : Type 0} where
  -- The row of the id is forgotten.
  abbrev pub IsGone : List (Memory V) → Text → Type 0
  IsGone ms id = (m : Memory V) × Among m ms × (m.id ≡ id) × (m.is_forgotten ≡ true)

  IsGone-later :
      (ms ms' : List (Memory V)) (id : Text) → Persists ms ms' → IsGone ms id → IsGone ms' id
  IsGone-later ms ms' id persists (m, among, named, gone) =
      let (m', among', later) = All-among (Later ms') m ms persists among in
      (m', among', later.same_id ∙ named, later.stays_forgotten gone)

  abbrev pub Lacks : Text → MemoryRecord V → Type 0
  Lacks id r = text_eq r.id id ≡ false

  module _ (unicode : Unicode) (clock : Clock) (now : ℕ) (org_id container_tag : Text) where
    pub record IsHidden (as_array : V → Option (List V)) (as_str : V → Option Text) (bucket : Text)
        (tables : MemoryTables V) (id : Text) : Type 0 where
      pub static : All (Lacks id) (static_profile_for unicode clock now org_id container_tag tables)
      pub dynamic : All (Lacks id) (
          dynamic_profile_for unicode clock now org_id container_tag
            (static_profile_for unicode clock now org_id container_tag tables)
            tables)
      pub bucket_rows :
          All (Lacks id) (
            bucket_profile_for unicode clock now org_id container_tag as_array as_str bucket tables)

    module _ (tables : MemoryTables V) (id : Text) (valid : IsValidTables tables)
        (gone : IsGone tables.memories id) where
      -- A record of a row that is not forgotten is not of the forgotten one.
      read-Lacks :
          (static : Bool) (r : MemoryRecord V)
          → IsShown unicode clock now org_id container_tag static tables r
          → Lacks id r
      read-Lacks static r (m, among, current, flag, read, content) =
          let (g, g_among, named, forgotten) = gone in
          subst (λ x. text_eq x id ≡ false) (sym read)
            (elim (Bool-cases (text_eq m.id id)) [
              | inr e ↦ e
              | inl e ↦
                  let same : m ≡ g =
                    All-among _ m tables.memories
                      (Distinct-key (λ k. k.id) g tables.memories valid.distinct g_among) among
                      (subst (λ x. text_eq m.id x ≡ true) (sym named) e) in
                  absurd (cc (current.kept, ap (λ k. k.is_forgotten) same, forgotten))
            ])

      gone-IsHidden :
          (as_array : V → Option (List V)) (as_str : V → Option Text) (bucket : Text)
          → IsHidden as_array as_str bucket tables id
      unfolding bucket_profile_for
      gone-IsHidden as_array as_str bucket = record {
        static = static_lacks;
        dynamic = dynamic_lacks;
        bucket_rows = All-take _ 100 _ (
            select-All _ (is_in_bucket as_array as_str bucket) _ (
              All-append _ (static_profile_for unicode clock now org_id container_tag tables) _
                static_lacks dynamic_lacks));
      }
        where
          profile :
              IsProfile unicode clock now org_id container_tag tables
                (static_profile_for unicode clock now org_id container_tag tables)
                (dynamic_profile_for unicode clock now org_id container_tag
                  (static_profile_for unicode clock now org_id container_tag tables)
                  tables)
          profile = profiles-IsProfile unicode clock now org_id container_tag tables

          static_lacks :
              All (Lacks id) (static_profile_for unicode clock now org_id container_tag tables)
          static_lacks = All-map _ _ (read-Lacks true) _ profile.static_rows

          dynamic_lacks : All (Lacks id) (
              dynamic_profile_for unicode clock now org_id container_tag
                (static_profile_for unicode clock now org_id container_tag tables)
                tables)
          dynamic_lacks = All-map _ _ (read-Lacks false) _ profile.dynamic_rows

  forgotten-IsGone :
      (clock : Clock) (now : ℕ) (org_id : Text) (id content : Option Text) (container_tag : Text)
      (before after : MemoryTables V) (forgotten_id : Text)
      → IsForgotten clock now org_id id content container_tag before forgotten_id after
      → IsGone after.memories forgotten_id
  forgotten-IsGone clock now org_id id content container_tag before after forgotten_id h =
      let (m, among, later) =
        All-among (Later after.memories) h.row before.memories h.persists h.among in
      let named : m.id ≡ forgotten_id = later.same_id ∙ h.named in
      (
        m,
        among,
        named,
        All-among _ m after.memories h.gone among ((text_eq_iff m.id forgotten_id).1 named),
      )

  -- Once a memory is forgotten, no profile of any container shows it, at any time and after any
  -- sequence of reconciliations and forgettings: not the static one, nor the dynamic one, nor that of a
  -- bucket.
  pub forget_memory_for-IsHidden :
      (f : Float32) (unicode : Unicode) (clock : Clock) (now : ℕ) (org_id : Text)
      (id content : Option Text) (container_tag : Text) (reason : Option Text) (store : Store V)
      (forgotten_id : Text) (after : MemoryTables V)
      → IsValidTables store.tables
      → forget_memory_for clock now org_id id content container_tag reason store.tables
        ≡ (ok forgotten_id, after)
      → (end : Store V) → Run f unicode clock (record store { tables = after }) end
      → (later : ℕ) (other_org other_tag : Text) (as_array : V → Option (List V))
        (as_str : V → Option Text) (bucket : Text)
      → IsHidden unicode clock later other_org other_tag as_array as_str bucket end.tables
          forgotten_id
  forget_memory_for-IsHidden f unicode clock now org_id id content container_tag reason store
        forgotten_id after valid done end run later other_org other_tag as_array as_str bucket =
      elim (forget_memory_for-IsForgotten clock now org_id id content container_tag reason
        store.tables valid) [
          | inl (refused, _) ↦ absurd (cc (ap (λ r. r.0) refused, ap (λ r. r.0) done))
          | inr (other_id, other, same, h) ↦
              let ids : other_id ≡ forgotten_id = cc (same, done) in
              let afters : other ≡ after = cc (same, done) in
              let forgotten =
                subst
                  (λ t.
                    IsForgotten clock now org_id id content container_tag store.tables forgotten_id
                      t)
                  afters
                  (subst
                    (λ i.
                      IsForgotten clock now org_id id content container_tag store.tables i other)
                    ids h) in
              let kept =
                Run-IsKept f unicode clock (record store { tables = after }) end run
                  forgotten.valid in
              gone-IsHidden unicode clock later other_org other_tag end.tables forgotten_id
                kept.valid
                (IsGone-later after.memories end.tables.memories forgotten_id kept.persists (
                  forgotten-IsGone clock now org_id id content container_tag store.tables after
                    forgotten_id forgotten))
                as_array as_str bucket
        ]
