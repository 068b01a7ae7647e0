-- ===== src/Storage/Memories/Dedup.antt =====
-- `normalized_memory` and `deduplicate_memories` of crates/storage/src/lib.rs. The tables of
-- Unicode behind `str::to_lowercase` and `char::is_alphanumeric` are parameters.
use supermemory_rs.Prelude.{
  ℕ, Text, text_eq, Bool, false, not, ◌&&◌, ◌||◌, List, [], ◌∷◌, Option, codes, take, is_empty,
  if◌then◌else◌, join, before_first, nonempty,
}
use supermemory_rs.Storage.Tables.{Metadata}

pub record Unicode : Type 0 where
  pub to_lowercase : Text → Text
  pub is_alphanumeric : ℕ → Bool

pub record MemoryRecord (V : Type 0) : Type 0 where
  pub id : Text
  pub memory : Text
  pub metadata : Metadata V
  pub is_inferred : Bool
  pub is_static : Bool
  pub is_latest : Bool
  pub is_forgotten : Bool
  pub root_memory_id : Option Text
  pub parent_memory_id : Option Text
  pub version : ℕ
  pub forget_after : Option Text
  pub forget_reason : Option Text
  pub created_at : Text
  pub updated_at : Text

-- `str::split` at the characters of a kind.
unfoldable pub split_where : (ℕ → Bool) → Text → List Text
unfolding before_first
split_where p [] = [] ∷ []
split_where p (c ∷ text) =
    let rest = split_where p text in if p c then [] ∷ rest else before_first c rest

unfoldable pub normalized_memory : Unicode → Text → Text
unfolding join nonempty split_where
normalized_memory unicode memory =
    join (codes " ")
      (nonempty (split_where (λ c. not (unicode.is_alphanumeric c)) (unicode.to_lowercase memory)))

-- `HashSet::contains`
unfoldable pub is_seen : Text → List Text → Bool
is_seen t [] = false
is_seen t (s ∷ seen) = text_eq s t || is_seen t seen

module _ {V : Type 0} (unicode : Unicode) where
  abbrev pub key_of : MemoryRecord V → Text
  key_of m = normalized_memory unicode m.memory

  -- The memories that the filter lets through; `seen` is the set that it grows.
  unfoldable pub unseen : List Text → List (MemoryRecord V) → List (MemoryRecord V)
  unfolding is_seen
  unseen seen [] = []
  unseen seen (m ∷ memories) =
      let grown = unseen (key_of m ∷ seen) memories in
      let rest = unseen seen memories in
      if not (is_empty (key_of m)) && not (is_seen (key_of m) seen) then m ∷ grown else rest

  unfoldable pub deduplicate_memories :
      List (MemoryRecord V) → ℕ → List Text → List (MemoryRecord V)
  unfolding unseen
  deduplicate_memories memories limit excluded = take limit (unseen excluded memories)
