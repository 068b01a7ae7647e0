-- ===== src/Tests/Search.antt =====
-- crates/server/src/search_engine.rs and search_projection.rs at small rankings.
use supermemory_rs.Prelude.{
  ℕ, ◌+◌, codes, ltb, true, false, ◌≡◌, refl, List, [], ◌∷◌, Option, none, some, take, arith,
}
use supermemory_rs.Server.Search.Ranked.{
  Float64, MemoryCandidate, ChunkCandidate, RankedCandidate, of_memory, of_chunk, fuse_candidates,
  select_diverse,
}
use supermemory_rs.Server.Search.Fusion.{IsFused, fuse_candidates-IsFused}
use supermemory_rs.Server.Search.Diversity.{
  IsDiverse, select_diverse-IsDiverse, select_diverse-take,
}
use supermemory_rs.Server.Search.Projection.{
  SearchResult, memory_result, fit_search_context, context_bytes,
}
use supermemory_rs.Server.Search.Budget.{
  IsFitting, fit_search_context-IsFitting, fit_search_context-whole,
}

abbrev points : Float64
points = record { F = ℕ; default = 0; add = λ a b. a + b; evidence = λ rank. rank; is_less = ltb }

abbrev tea : MemoryCandidate ℕ
tea = record { id = codes "a"; semantic_score = none; lexical_rank = some 3 }

abbrev first : ChunkCandidate ℕ
first = record {
  chunk_id = 1;
  stable_id = codes "s";
  document_id = codes "d";
  ordinal = 0;
  semantic_score = some 7;
  lexical_rank = none;
}

abbrev second : ChunkCandidate ℕ
second = record first { stable_id = codes "t"; ordinal = 1 }

fuse_candidates-IsFused_example :
    IsFused points
      (tea ∷ [])
      (tea ∷ [])
      (first ∷ second ∷ [])
      (second ∷ [])
      (fuse_candidates points (tea ∷ []) (tea ∷ []) (first ∷ second ∷ []) (second ∷ []))
fuse_candidates-IsFused_example =
    fuse_candidates-IsFused points (tea ∷ []) (tea ∷ []) (first ∷ second ∷ []) (second ∷ [])

abbrev candidates : List (RankedCandidate ℕ)
candidates = of_chunk first ∷ of_chunk second ∷ of_memory tea ∷ []

select_diverse-IsDiverse_example : IsDiverse candidates 2 (select_diverse candidates 2 true)
select_diverse-IsDiverse_example = select_diverse-IsDiverse candidates 2

select_diverse-take_example : select_diverse candidates 2 false ≡ take 2 candidates
select_diverse-take_example = select_diverse-take candidates 2

abbrev found : SearchResult ℕ ℕ
found = memory_result (record {
  id = codes "a";
  memory = codes "likes tea";
  metadata = some [];
  updated_at = codes "now";
  similarity = 1;
  version = 1;
  root_memory_id = none;
  context = record { parents = []; children = []; related = [] };
  documents = [];
  chunks = [];
})

abbrev with_metadata : SearchResult ℕ ℕ → Option ℕ
with_metadata (memory_result r) = elim r.metadata [ none ↦ some 100 | some m ↦ some 3000 ]
with_metadata r = some 100

-- It is more than half of the budget and fits the budget, so that it is left out as it is.
unreduced : fit_search_context with_metadata (found ∷ []) ≡ []
unfolding fit_search_context
unreduced = refl

fit_search_context-IsFitting_example :
    IsFitting with_metadata 5000 (found ∷ []) (fit_search_context with_metadata (found ∷ []))
fit_search_context-IsFitting_example = fit_search_context-IsFitting with_metadata (found ∷ [])

abbrev in_bytes : SearchResult ℕ ℕ → Option ℕ
in_bytes r = some 1200

fit_search_context-whole_example :
    fit_search_context in_bytes (found ∷ found ∷ []) ≡ found ∷ found ∷ []
unfolding context_bytes
fit_search_context-whole_example =
    fit_search_context-whole in_bytes (found ∷ found ∷ []) (omega arith)
      (omega arith, (omega arith, tt))
