-- ===== src/Server/Search/Fusion.antt =====
-- What `fuse_candidates` makes of the four rankings.
use supermemory_rs.Prelude.{
  ℕ, ◌+◌, ◌⊎◌, Bool, ◌++◌, All-map, text_eq, true, false, ◌≡◌, refl, sym, ap, ◌∙◌, inl, inr, List,
  [], ◌∷◌, Option, none, some, All, Bool-cases, if◌then◌else◌,
}
use supermemory_rs.Storage.Sql.Keys.{Distinct}
use supermemory_rs.Server.Search.Ranked.{
  Float64, MemoryCandidate, ChunkCandidate, RankedCandidate, of_memory, of_chunk, candidate_id,
  add_all, into_values, evidence_pairs, fuse_candidates, rank_or_first, numbered_memories,
  numbered_chunks, ranked_memories, ranked_chunks,
}
use supermemory_rs.Server.Search.Sums.{
  Entry, score_of, evidence_for, accumulated, score_of-add_all, add_all-IsKeyed, candidate_with,
  scored, candidate_with-into_values, into_values-Distinct,
}

module _ (f : Float64) where
  -- The memories or the chunks of a ranking with their places in it, from `rank` on.
  abbrev pub IsNumbered :
      {A : Type 0}
      → (A → RankedCandidate f.F)
      → ℕ
      → List A
      → List (RankedCandidate f.F × ℕ)
      → Type 0
  IsNumbered of rank [] [] = Unit
  IsNumbered of rank [] (p ∷ ps) = ⊥
  IsNumbered of rank (x ∷ xs) [] = ⊥
  IsNumbered of rank (x ∷ xs) (p ∷ ps) =
      (p.0 ≡ of x) × (p.1 ≡ rank) × IsNumbered of (rank + 1) xs ps

  -- The memories or the chunks of a ranking with the rank that each names, or the first.
  abbrev pub IsRanked :
      {A : Type 0}
      → (A → RankedCandidate f.F)
      → (A → Option ℕ)
      → List A
      → List (RankedCandidate f.F × ℕ)
      → Type 0
  IsRanked of rank [] [] = Unit
  IsRanked of rank [] (p ∷ ps) = ⊥
  IsRanked of rank (x ∷ xs) [] = ⊥
  IsRanked of rank (x ∷ xs) (p ∷ ps) =
      (p.0 ≡ of x) × ((rank x ≡ some p.1) ⊎ ((rank x ≡ none) × (p.1 ≡ 1))) × IsRanked of rank xs ps

  -- Memories of one id, or chunks of one stable id.
  abbrev pub is_same : RankedCandidate f.F → RankedCandidate f.F → Bool
  is_same (of_memory m) (of_memory n) = text_eq m.id n.id
  is_same (of_memory m) (of_chunk c) = false
  is_same (of_chunk c) (of_memory m) = false
  is_same (of_chunk c) (of_chunk d) = text_eq c.stable_id d.stable_id

  -- The first candidate that is the same as the given one.
  unfoldable pub found :
      RankedCandidate f.F → List (RankedCandidate f.F) → Option (RankedCandidate f.F)
  found k [] = none
  found k (c ∷ cs) = let rest = found k cs in if is_same c k then some c else rest

  -- What the evidence for a candidate comes to.
  unfoldable pub evidence_of :
      RankedCandidate f.F → Option (Entry f) → List (RankedCandidate f.F × ℕ) → Option (Entry f)
  evidence_of k sum [] = sum
  evidence_of k sum ((candidate, rank) ∷ pairs) =
      if is_same candidate k
      then evidence_of k (evidence_for f sum candidate rank) pairs
      else evidence_of k sum pairs

  same-candidate_id :
      (c k : RankedCandidate f.F) → text_eq (candidate_id c) (candidate_id k) ≡ is_same c k
  unfolding candidate_id text_eq
  same-candidate_id (of_memory m) (of_memory n) = refl
  same-candidate_id (of_memory m) (of_chunk c) = refl
  same-candidate_id (of_chunk c) (of_memory m) = refl
  same-candidate_id (of_chunk c) (of_chunk d) = refl

  found-candidate_with :
      (k : RankedCandidate f.F) (cs : List (RankedCandidate f.F))
      → found k cs ≡ candidate_with f (candidate_id k) cs
  unfolding found candidate_with
  found-candidate_with k [] = refl
  found-candidate_with k (c ∷ cs) =
      rw (same-candidate_id c k)
        (ap (λ rest. if is_same c k then some c else rest) (found-candidate_with k cs))

  evidence_of-accumulated :
      (k : RankedCandidate f.F) (sum : Option (Entry f)) (pairs : List (RankedCandidate f.F × ℕ))
      → evidence_of k sum pairs ≡ accumulated f (candidate_id k) sum pairs
  unfolding evidence_of accumulated
  evidence_of-accumulated k sum [] = refl
  evidence_of-accumulated k sum ((c, rank) ∷ pairs) = elim (Bool-cases (is_same c k)) [
    | inl e ↦
        let e' : text_eq (candidate_id c) (candidate_id k) ≡ true = same-candidate_id c k ∙ e in
        rw (e, e') (evidence_of-accumulated k (evidence_for f sum c rank) pairs)
    | inr e ↦
        let e' : text_eq (candidate_id c) (candidate_id k) ≡ false = same-candidate_id c k ∙ e in
        rw (e, e') (evidence_of-accumulated k sum pairs)
  ]

  numbered_memories-IsNumbered :
      (rank : ℕ) (ms : List (MemoryCandidate f.F))
      → IsNumbered (λ m. of_memory m) rank ms (numbered_memories rank ms)
  unfolding numbered_memories
  numbered_memories-IsNumbered rank [] = tt
  numbered_memories-IsNumbered rank (m ∷ ms) =
      (refl, refl, numbered_memories-IsNumbered (rank + 1) ms)

  numbered_chunks-IsNumbered :
      (rank : ℕ) (cs : List (ChunkCandidate f.F))
      → IsNumbered (λ c. of_chunk c) rank cs (numbered_chunks rank cs)
  unfolding numbered_chunks
  numbered_chunks-IsNumbered rank [] = tt
  numbered_chunks-IsNumbered rank (c ∷ cs) = (refl, refl, numbered_chunks-IsNumbered (rank + 1) cs)

  rank_or_first_lem :
      (rank : Option ℕ)
      → (rank ≡ some (rank_or_first rank)) ⊎ ((rank ≡ none) × (rank_or_first rank ≡ 1))
  unfolding rank_or_first
  rank_or_first_lem none = inr (refl, refl)
  rank_or_first_lem (some rank) = inl refl

  ranked_memories-IsRanked :
      (ms : List (MemoryCandidate f.F))
      → IsRanked (λ m. of_memory m) (λ m. m.lexical_rank) ms (ranked_memories ms)
  unfolding ranked_memories
  ranked_memories-IsRanked [] = tt
  ranked_memories-IsRanked (m ∷ ms) =
      (refl, rank_or_first_lem m.lexical_rank, ranked_memories-IsRanked ms)

  ranked_chunks-IsRanked :
      (cs : List (ChunkCandidate f.F))
      → IsRanked (λ c. of_chunk c) (λ c. c.lexical_rank) cs (ranked_chunks cs)
  unfolding ranked_chunks
  ranked_chunks-IsRanked [] = tt
  ranked_chunks-IsRanked (c ∷ cs) =
      (refl, rank_or_first_lem c.lexical_rank, ranked_chunks-IsRanked cs)

  -- No two are the same candidate.
  abbrev pub AllApart : List (RankedCandidate f.F) → Type 0
  AllApart [] = Unit
  AllApart (c ∷ cs) = All (λ k. is_same k c ≡ false) cs × AllApart cs

  Distinct-AllApart : (cs : List (RankedCandidate f.F)) → Distinct candidate_id cs → AllApart cs
  Distinct-AllApart [] h = tt
  Distinct-AllApart (c ∷ cs) h =
      (All-map _ _ (λ k e. sym (same-candidate_id k c) ∙ e) cs h.0, Distinct-AllApart cs h.1)

  pub record IsFused (semantic_memories lexical_memories : List (MemoryCandidate f.F))
      (semantic_chunks lexical_chunks : List (ChunkCandidate f.F))
      (fused : List (RankedCandidate f.F)) : Type 0 where
    pub memory_places : List (RankedCandidate f.F × ℕ)
    pub memory_ranks : List (RankedCandidate f.F × ℕ)
    pub chunk_places : List (RankedCandidate f.F × ℕ)
    pub chunk_ranks : List (RankedCandidate f.F × ℕ)
    pub numbered_memory : IsNumbered (λ m. of_memory m) 1 semantic_memories memory_places
    pub ranked_memory :
        IsRanked (λ m. of_memory m) (λ m. m.lexical_rank) lexical_memories memory_ranks
    pub numbered_chunk : IsNumbered (λ c. of_chunk c) 1 semantic_chunks chunk_places
    pub ranked_chunk : IsRanked (λ c. of_chunk c) (λ c. c.lexical_rank) lexical_chunks chunk_ranks
    pub apart : AllApart fused
    pub sums :
        (k : RankedCandidate f.F)
        → found k fused
          ≡ scored f
              (evidence_of k none (memory_places ++ memory_ranks ++ chunk_places ++ chunk_ranks))

  -- The fused candidates are apart: no two are memories of one id or chunks of one stable id. For each
  -- memory and chunk, the first of its kind in the four rankings is there, if there is one, and its
  -- score is the sum, in their order, of the evidence of all its places in them and of no others. A
  -- place in a semantic ranking counts from one, and one in a lexical ranking is the rank that the
  -- entry names, or one.
  pub fuse_candidates-IsFused :
      (semantic_memories lexical_memories : List (MemoryCandidate f.F))
      (semantic_chunks lexical_chunks : List (ChunkCandidate f.F))
      → IsFused semantic_memories lexical_memories semantic_chunks lexical_chunks
          (fuse_candidates f semantic_memories lexical_memories semantic_chunks lexical_chunks)
  unfolding fuse_candidates evidence_pairs score_of
  fuse_candidates-IsFused semantic_memories lexical_memories semantic_chunks lexical_chunks =
      let pairs =
        evidence_pairs f semantic_memories lexical_memories semantic_chunks lexical_chunks in
      let (keyed, distinct) = add_all-IsKeyed f pairs [] tt tt in
      record {
        memory_places = numbered_memories 1 semantic_memories;
        memory_ranks = ranked_memories lexical_memories;
        chunk_places = numbered_chunks 1 semantic_chunks;
        chunk_ranks = ranked_chunks lexical_chunks;
        numbered_memory = numbered_memories-IsNumbered 1 semantic_memories;
        ranked_memory = ranked_memories-IsRanked lexical_memories;
        numbered_chunk = numbered_chunks-IsNumbered 1 semantic_chunks;
        ranked_chunk = ranked_chunks-IsRanked lexical_chunks;
        apart =
            Distinct-AllApart (into_values f (add_all f pairs []))
              (into_values-Distinct f (add_all f pairs []) keyed distinct);
        sums = λ k.
            found-candidate_with k (into_values f (add_all f pairs []))
            ∙ candidate_with-into_values f (candidate_id k) (add_all f pairs []) keyed
            ∙ ap (scored f) (
                score_of-add_all f (candidate_id k) pairs []
                ∙ sym (evidence_of-accumulated k none pairs));
      }
