-- ===== src/Server/Search/Projection.antt =====
-- crates/server/src/search_projection.rs and the results of crates/server/src/lib.rs that it
-- budgets. JSON values and the length of a result in JSON are parameters.
use supermemory_rs.Prelude.{
  ℕ, ◌-◌, ltb, Text, Bool, ◌||◌, List, [], ◌∷◌, Option, none, some, if◌then◌else◌,
}
use supermemory_rs.Storage.Tables.{Metadata}

pub record EmptyContext (V : Type 0) : Type 0 where
  pub parents : List V
  pub children : List V
  pub related : List V

pub record SearchDocument (V : Type 0) : Type 0 where
  pub id : Text
  pub title : Option Text
  pub document_type : Option Text
  pub metadata : Option (Metadata V)
  pub summary : Option Text
  pub created_at : Text
  pub updated_at : Text

pub record MemorySearchResult (V F : Type 0) : Type 0 where
  pub id : Text
  pub memory : Text
  pub metadata : Option (Metadata V)
  pub updated_at : Text
  pub similarity : F
  pub version : ℕ
  pub root_memory_id : Option Text
  pub context : EmptyContext V
  pub documents : List (SearchDocument V)
  pub chunks : List V

pub record ChunkSearchResult (V F : Type 0) : Type 0 where
  pub id : Text
  pub chunk : Text
  pub metadata : Option (Metadata V)
  pub filepath : Option Text
  pub updated_at : Text
  pub similarity : F
  pub version : ℕ
  pub context : EmptyContext V
  pub documents : List (SearchDocument V)
  pub chunks : List V

pub data SearchResult (V F : Type 0) : Type 0 where
  memory_result : MemorySearchResult V F → SearchResult V F
  chunk_result : ChunkSearchResult V F → SearchResult V F

unfoldable pub search_context_budget_bytes : ℕ
search_context_budget_bytes = 5000

-- Half of the budget.
unfoldable pub max_result_context_bytes : ℕ
max_result_context_bytes = 2500

-- usize::MAX
unfoldable pub or_max : Option ℕ → ℕ
or_max none = 18446744073709551615
or_max (some n) = n

unfoldable pub cleared : {V : Type 0} → EmptyContext V → EmptyContext V
cleared context = record context { parents = []; children = []; related = [] }

module _ {V F : Type 0} where
  unfoldable pub reduce_optional_fields : SearchResult V F → SearchResult V F
  unfolding cleared
  reduce_optional_fields (memory_result r) =
      memory_result
        (record r { context = cleared r.context; documents = []; chunks = []; metadata = none })
  reduce_optional_fields (chunk_result r) =
      chunk_result
        (record r { context = cleared r.context; documents = []; chunks = []; metadata = none })

  module _ (serialized_len : SearchResult V F → Option ℕ) where
    unfoldable pub context_bytes : SearchResult V F → ℕ
    unfolding or_max
    context_bytes r = or_max (serialized_len r)

    -- The result as it is tried: without its optional fields, if it does not fit with them.
    unfoldable pub tried : ℕ → SearchResult V F → SearchResult V F
    unfolding context_bytes reduce_optional_fields
    tried remaining r = if ltb remaining (context_bytes r) then reduce_optional_fields r else r

    unfoldable pub is_omitted : ℕ → SearchResult V F → Bool
    unfolding context_bytes max_result_context_bytes
    is_omitted remaining r =
        ltb remaining (context_bytes r) || ltb max_result_context_bytes (context_bytes r)

    -- The closure of `filter_map`, with the bytes that remain.
    unfoldable pub fit_from : ℕ → List (SearchResult V F) → List (SearchResult V F)
    unfolding tried is_omitted context_bytes
    fit_from remaining [] = []
    fit_from remaining (r ∷ rs) =
        let result = tried remaining r in
        let without = fit_from remaining rs in
        let rest = fit_from (remaining - context_bytes result) rs in
        if is_omitted remaining result then without else result ∷ rest

    unfoldable pub fit_search_context : List (SearchResult V F) → List (SearchResult V F)
    unfolding fit_from search_context_budget_bytes
    fit_search_context results = fit_from search_context_budget_bytes results
