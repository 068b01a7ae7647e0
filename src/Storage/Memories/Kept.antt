-- ===== src/Storage/Memories/Kept.antt =====
-- Which memories deduplication keeps.
use supermemory_rs.Prelude.{
  ℕ, zero, suc, ◌≤◌, Text, text_eq, text_eq_iff, Bool, true, false, not, ◌&&◌, ◌≡◌, refl, sym, ap,
  ◌⊎◌, inl, inr, List, [], ◌∷◌, take, length, length-take, is_empty, All, All-map, arith,
  Bool-cases,
}
use mathlib.Core.Path.{subst}
use supermemory_rs.Storage.Sql.Laws.{Among}
use supermemory_rs.Storage.Sql.Keys.{Distinct}
use supermemory_rs.Storage.Memories.Dedup.{
  Unicode, MemoryRecord, is_seen, key_of, unseen, deduplicate_memories,
}

module _ {V : Type 0} (unicode : Unicode) where
  abbrev key : MemoryRecord V → Text
  key m = key_of unicode m

  -- A memory that says something, which is not said already.
  pub record IsNew (seen : List Text) (m : MemoryRecord V) : Type 0 where
    pub says : is_empty (key m) ≡ false
    pub unsaid : is_seen (key m) seen ≡ false

  -- A key is nothing, seen, or the key of one of the memories.
  abbrev pub IsSaid : Text → List Text → List (MemoryRecord V) → Type 0
  IsSaid k seen kept =
      (is_empty k ≡ true)
      ⊎ (is_seen k seen ≡ true)
      ⊎ ((m : MemoryRecord V) × Among m kept × (key m ≡ k))

  unseen-IsNew :
      (seen : List Text) (ms : List (MemoryRecord V)) → All (IsNew seen) (unseen unicode seen ms)
  unfolding unseen is_seen
  unseen-IsNew seen [] = tt
  unseen-IsNew seen (m ∷ ms) =
      elim (Bool-cases (not (is_empty (key m)) && not (is_seen (key m) seen))) [
        | inr e ↦ rw e (unseen-IsNew seen ms)
        | inl e ↦ rw e (
          record { says = ground arith; unsaid = ground arith },
          All-map _ _ narrow (unseen unicode (key m ∷ seen) ms) (unseen-IsNew (key m ∷ seen) ms),
        )
      ]
    where
      narrow : (k : MemoryRecord V) → IsNew (key m ∷ seen) k → IsNew seen k
      narrow k h = record { says = h.says; unsaid = ground (arith, h.unsaid) }

  unseen-Among :
      (seen : List Text) (ms : List (MemoryRecord V))
      → All (λ m. Among m ms) (unseen unicode seen ms)
  unfolding unseen
  unseen-Among seen [] = tt
  unseen-Among seen (m ∷ ms) =
      elim (Bool-cases (not (is_empty (key m)) && not (is_seen (key m) seen))) [
        | inr e ↦ rw e (All-map _ _ (λ k a. inr a) (unseen unicode seen ms) (unseen-Among seen ms))
        | inl e ↦ rw e (
          inl refl,
          All-map _ _ (λ k a. inr a) (unseen unicode (key m ∷ seen) ms)
              (unseen-Among (key m ∷ seen) ms),
        )
      ]

  unseen-Distinct :
      (seen : List Text) (ms : List (MemoryRecord V)) → Distinct key (unseen unicode seen ms)
  unfolding unseen is_seen
  unseen-Distinct seen [] = tt
  unseen-Distinct seen (m ∷ ms) =
      elim (Bool-cases (not (is_empty (key m)) && not (is_seen (key m) seen))) [
        | inr e ↦ rw e (unseen-Distinct seen ms)
        | inl e ↦ rw e (
          All-map _ _ apart (unseen unicode (key m ∷ seen) ms) (unseen-IsNew (key m ∷ seen) ms),
          unseen-Distinct (key m ∷ seen) ms,
        )
      ]
    where
      apart : (k : MemoryRecord V) → IsNew (key m ∷ seen) k → text_eq (key k) (key m) ≡ false
      apart k h = ground (arith, h.unsaid, text_eq_iff (key k) (key m), text_eq_iff (key m) (key k))

  abbrev admitted : List Text → MemoryRecord V → Bool
  admitted seen m = not (is_empty (key m)) && not (is_seen (key m) seen)

  unseen-admitted :
      (seen : List Text) (m : MemoryRecord V) (ms : List (MemoryRecord V))
      → admitted seen m ≡ true
      → unseen unicode seen (m ∷ ms) ≡ m ∷ unseen unicode (key m ∷ seen) ms
  unfolding unseen
  unseen-admitted seen m ms e = rw e refl

  unseen-refused :
      (seen : List Text) (m : MemoryRecord V) (ms : List (MemoryRecord V))
      → admitted seen m ≡ false
      → unseen unicode seen (m ∷ ms) ≡ unseen unicode seen ms
  unfolding unseen
  unseen-refused seen m ms e = rw e refl

  unseen-IsSaid :
      (seen : List Text) (ms : List (MemoryRecord V))
      → All (λ m. IsSaid (key m) seen (unseen unicode seen ms)) ms
  unfolding is_seen
  unseen-IsSaid seen [] = tt
  unseen-IsSaid seen (m ∷ ms) = elim (Bool-cases (admitted seen m)) [
    | inr e ↦
        recast (unseen-refused seen m ms e)
          (old e (Bool-cases (is_empty (key m))), unseen-IsSaid seen ms)
    | inl e ↦
        recast (unseen-admitted seen m ms e)
          (inr (inr (m, inl refl, refl)), All-map _ _ grown ms (unseen-IsSaid (key m ∷ seen) ms))
  ]
    where
      recast :
          {kept other : List (MemoryRecord V)}
          → kept ≡ other
          → All (λ k. IsSaid (key k) seen other) (m ∷ ms)
          → All (λ k. IsSaid (key k) seen kept) (m ∷ ms)
      recast e h = subst (λ kept. All (λ k. IsSaid (key k) seen kept) (m ∷ ms)) (sym e) h

      old :
          (not (is_empty (key m)) && not (is_seen (key m) seen)) ≡ false
          → (is_empty (key m) ≡ true) ⊎ (is_empty (key m) ≡ false)
          → IsSaid (key m) seen (unseen unicode seen ms)
      old e (inl empty) = inl empty
      old e (inr full) = inr (inl (ground arith))

      grown :
          (k : MemoryRecord V)
          → IsSaid (key k) (key m ∷ seen) (unseen unicode (key m ∷ seen) ms)
          → IsSaid (key k) seen (m ∷ unseen unicode (key m ∷ seen) ms)
      grown k (inl empty) = inl empty
      grown k (inr (inr (other, among, same))) = inr (inr (other, inr among, same))
      grown k (inr (inl said)) = elim (Bool-cases (text_eq (key m) (key k))) [
        | inl same ↦ inr (inr (m, inl refl, (text_eq_iff (key m) (key k)).0 same))
        | inr other ↦ inr (inl (ground arith))
      ]

  take-All :
      (P : MemoryRecord V → Type 0) (n : ℕ) (ms : List (MemoryRecord V))
      → All P ms
      → All P (take n ms)
  take-All P zero ms h = tt
  take-All P (suc n) [] h = tt
  take-All P (suc n) (m ∷ ms) h = (h.0, take-All P n ms h.1)

  take-Distinct : (n : ℕ) (ms : List (MemoryRecord V)) → Distinct key ms → Distinct key (take n ms)
  take-Distinct zero ms h = tt
  take-Distinct (suc n) [] h = tt
  take-Distinct (suc n) (m ∷ ms) h = (take-All _ n ms h.0, take-Distinct n ms h.1)

  take-whole : (n : ℕ) (ms : List (MemoryRecord V)) → (take n ms ≡ ms) ⊎ (length (take n ms) ≡ n)
  take-whole zero ms = inr refl
  take-whole (suc n) [] = inl refl
  take-whole (suc n) (m ∷ ms) = elim (take-whole n ms) [
    | inl e ↦ inl (ap (λ rest. m ∷ rest) e)
    | inr e ↦ inr (omega (arith, e))
  ]

  pub record IsDeduplicated (memories : List (MemoryRecord V)) (limit : ℕ) (excluded : List Text)
      (kept : List (MemoryRecord V)) : Type 0 where
    pub short : length kept ≤ limit
    pub given : All (λ m. Among m memories) kept
    pub new : All (IsNew excluded) kept
    pub distinct : Distinct key kept
    pub complete : (length kept ≡ limit) ⊎ All (λ m. IsSaid (key m) excluded kept) memories

  -- Deduplication returns at most `limit` of the memories, each of which says something that is neither
  -- excluded nor said by another of them; and unless the limit is reached, what any given memory says
  -- is nothing, excluded or said by one that is returned.
  pub deduplicate_memories-IsDeduplicated :
      (memories : List (MemoryRecord V)) (limit : ℕ) (excluded : List Text)
      → IsDeduplicated memories limit excluded
          (deduplicate_memories unicode memories limit excluded)
  unfolding deduplicate_memories
  deduplicate_memories-IsDeduplicated memories limit excluded = record {
    short = omega (arith, length-take limit (unseen unicode excluded memories));
    given = take-All _ limit _ (unseen-Among excluded memories);
    new = take-All _ limit _ (unseen-IsNew excluded memories);
    distinct = take-Distinct limit _ (unseen-Distinct excluded memories);
    complete = elim (take-whole limit (unseen unicode excluded memories)) [
      | inr e ↦ inl e
      | inl e ↦ inr (rw e (unseen-IsSaid excluded memories))
    ];
  }
