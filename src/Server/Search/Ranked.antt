-- ===== src/Server/Search/Ranked.antt =====
-- The candidates of crates/storage/src/lib.rs, and how crates/server/src/search_engine.rs fuses,
-- orders and selects them. The floats of 64 bits are a parameter.
use supermemory_rs.Prelude.{
  ℕ, zero, suc, ◌+◌, Text, text_eq, text_lt, leb, Bool, true, false, not, ◌&&◌, ◌||◌, ◌==◌, List,
  [], ◌∷◌, ◌++◌, Option, none, some, codes, if◌then◌else◌,
}
use supermemory_rs.Storage.Sql.{order_by}

-- `evidence` is 1.0 / (60.0 + rank), and `is_less` tests that `total_cmp` gives `Less`.
pub record Float64 : Type 1 where
  pub F : Type 0
  pub default : F
  pub add : F → F → F
  pub evidence : ℕ → F
  pub is_less : F → F → Bool

pub record MemoryCandidate (F : Type 0) : Type 0 where
  pub id : Text
  pub semantic_score : Option F
  pub lexical_rank : Option ℕ

pub record ChunkCandidate (F : Type 0) : Type 0 where
  pub chunk_id : ℕ
  pub stable_id : Text
  pub document_id : Text
  pub ordinal : ℕ
  pub semantic_score : Option F
  pub lexical_rank : Option ℕ

pub data RankedCandidate (F : Type 0) : Type 0 where
  of_memory : MemoryCandidate F → RankedCandidate F
  of_chunk : ChunkCandidate F → RankedCandidate F

unfoldable pub rank_or_first : Option ℕ → ℕ
rank_or_first none = 1
rank_or_first (some rank) = rank

-- Whether a chunk of the candidate's document is selected already.
unfoldable pub is_represented : Option Text → List Text → Bool
is_represented none documents = false
is_represented (some id) [] = false
is_represented (some id) (d ∷ documents) = text_eq d id || is_represented (some id) documents

unfoldable pub with_document : Option Text → List Text → List Text
with_document none documents = documents
with_document (some id) documents = id ∷ documents

module _ {F : Type 0} where
  unfoldable pub candidate_id : RankedCandidate F → Text
  candidate_id (of_memory m) = codes "m:" ++ m.id
  candidate_id (of_chunk c) = codes "c:" ++ c.stable_id

  unfoldable pub candidate_document : RankedCandidate F → Option Text
  candidate_document (of_memory m) = none
  candidate_document (of_chunk c) = some c.document_id

  unfoldable pub with_score : F → RankedCandidate F → RankedCandidate F
  with_score score (of_memory m) = of_memory (record m { semantic_score = some score })
  with_score score (of_chunk c) = of_chunk (record c { semantic_score = some score })

  -- The order of memories before chunks.
  unfoldable pub is_denser : RankedCandidate F → RankedCandidate F → Bool
  is_denser (of_memory m) (of_chunk c) = true
  is_denser (of_memory m) (of_memory n) = false
  is_denser (of_chunk c) (of_chunk d) = false
  is_denser (of_chunk c) (of_memory m) = false

  -- The pairs of a candidate and its rank that the four loops go through.
  unfoldable pub numbered_memories : ℕ → List (MemoryCandidate F) → List (RankedCandidate F × ℕ)
  numbered_memories rank [] = []
  numbered_memories rank (m ∷ ms) = (of_memory m, rank) ∷ numbered_memories (rank + 1) ms

  unfoldable pub numbered_chunks : ℕ → List (ChunkCandidate F) → List (RankedCandidate F × ℕ)
  numbered_chunks rank [] = []
  numbered_chunks rank (c ∷ cs) = (of_chunk c, rank) ∷ numbered_chunks (rank + 1) cs

  unfoldable pub ranked_memories : List (MemoryCandidate F) → List (RankedCandidate F × ℕ)
  unfolding rank_or_first
  ranked_memories [] = []
  ranked_memories (m ∷ ms) = (of_memory m, rank_or_first m.lexical_rank) ∷ ranked_memories ms

  unfoldable pub ranked_chunks : List (ChunkCandidate F) → List (RankedCandidate F × ℕ)
  unfolding rank_or_first
  ranked_chunks [] = []
  ranked_chunks (c ∷ cs) = (of_chunk c, rank_or_first c.lexical_rank) ∷ ranked_chunks cs

  -- The loop of `select_diverse`, with the number of candidates that may still be selected.
  unfoldable pub select_from :
      ℕ → Bool → List Text → List (RankedCandidate F) → List (RankedCandidate F)
  unfolding candidate_document is_represented with_document
  select_from n aggregate documents [] = []
  select_from zero aggregate documents (c ∷ cs) = []
  select_from (suc n) aggregate documents (c ∷ cs) =
      let document = candidate_document c in
      let without = select_from (suc n) aggregate documents cs in
      let rest = select_from n aggregate (with_document document documents) cs in
      if aggregate && is_represented document documents then without else c ∷ rest

  unfoldable pub select_diverse : List (RankedCandidate F) → ℕ → Bool → List (RankedCandidate F)
  unfolding select_from
  select_diverse candidates limit aggregate = select_from limit aggregate [] candidates

module _ (f : Float64) where
  unfoldable pub score_or_default : Option f.F → f.F
  score_or_default none = f.default
  score_or_default (some score) = score

  unfoldable pub candidate_score : RankedCandidate f.F → f.F
  unfolding score_or_default
  candidate_score (of_memory m) = score_or_default m.semantic_score
  candidate_score (of_chunk c) = score_or_default c.semantic_score

  -- `compare_ranked_candidates` gives `Less`.
  unfoldable pub ranks_before : RankedCandidate f.F → RankedCandidate f.F → Bool
  unfolding candidate_score is_denser candidate_id
  ranks_before left right =
      f.is_less (candidate_score right) (candidate_score left)
      || (not (f.is_less (candidate_score left) (candidate_score right))
          && (is_denser left right
              || (not (is_denser right left) && text_lt (candidate_id left) (candidate_id right))))

  -- The map from ids to candidates with their scores.
  abbrev pub Fused : Type 0
  Fused = List (Text × RankedCandidate f.F × f.F)

  unfoldable pub add_evidence : RankedCandidate f.F → ℕ → Fused → Fused
  unfolding candidate_id
  add_evidence candidate rank [] = (candidate_id candidate, candidate, f.evidence rank) ∷ []
  add_evidence candidate rank ((id, first, total) ∷ fused) =
      let rest = add_evidence candidate rank fused in
      if text_eq id (candidate_id candidate)
      then (id, first, f.add total (f.evidence rank)) ∷ fused
      else (id, first, total) ∷ rest

  unfoldable pub add_all : List (RankedCandidate f.F × ℕ) → Fused → Fused
  unfolding add_evidence
  add_all [] fused = fused
  add_all ((candidate, rank) ∷ pairs) fused = add_all pairs (add_evidence candidate rank fused)

  unfoldable pub into_values : Fused → List (RankedCandidate f.F)
  unfolding with_score
  into_values [] = []
  into_values ((id, candidate, score) ∷ fused) = with_score score candidate ∷ into_values fused

  unfoldable pub evidence_pairs :
      List (MemoryCandidate f.F)
      → List (MemoryCandidate f.F)
      → List (ChunkCandidate f.F)
      → List (ChunkCandidate f.F)
      → List (RankedCandidate f.F × ℕ)
  unfolding numbered_memories ranked_memories numbered_chunks ranked_chunks
  evidence_pairs semantic_memories lexical_memories semantic_chunks lexical_chunks =
      numbered_memories 1 semantic_memories
      ++ ranked_memories lexical_memories
      ++ numbered_chunks 1 semantic_chunks
      ++ ranked_chunks lexical_chunks

  unfoldable pub fuse_candidates :
      List (MemoryCandidate f.F)
      → List (MemoryCandidate f.F)
      → List (ChunkCandidate f.F)
      → List (ChunkCandidate f.F)
      → List (RankedCandidate f.F)
  unfolding evidence_pairs add_all into_values
  fuse_candidates semantic_memories lexical_memories semantic_chunks lexical_chunks = into_values (
      add_all (evidence_pairs semantic_memories lexical_memories semantic_chunks lexical_chunks) [])

  -- `ranked.sort_by(compare_ranked_candidates)` and the selection.
  unfoldable pub select_ranked : List (RankedCandidate f.F) → ℕ → Bool → List (RankedCandidate f.F)
  unfolding ranks_before order_by select_diverse
  select_ranked ranked limit aggregate =
      select_diverse (order_by ranks_before ranked) limit aggregate

-- Digits, capitals and the characters of identifiers.
unfoldable pub is_exact : ℕ → Bool
is_exact c =
    (leb 0x30 c && leb c 0x39)
    || (c == 0x22)
    || (c == 0x27)
    || (c == 0x5f)
    || (c == 0x2d)
    || (c == 0x2f)
    || (c == 0x40)
    || (c == 0x23)
    || (leb 0x41 c && leb c 0x5a)

unfoldable pub lexical_intent : Text → Bool
unfolding is_exact
lexical_intent [] = false
lexical_intent (c ∷ query) = is_exact c || lexical_intent query
