-- ===== src/MemoryEngine/Executor/Pieces.antt =====
-- The requests that a document is cut into, and what they give together.
use mathlib.Core.Path.{subst}
use supermemory_rs.Prelude.{
  ℕ, suc, ◌*◌, ◌≤◌, max, ◌≡◌, refl, sym, ap, inl, inr, List, [], ◌∷◌, ◌++◌, ok, take, drop, length,
  All, map, arith,
}
use supermemory_rs.MemoryEngine.Executor.Microbatch.{microbatch_lengths}
use supermemory_rs.MemoryEngine.Executor.Partition.{
  concat, longest_of, Fits, microbatch_lengths-IsPartition,
}
use supermemory_rs.MemoryEngine.Executor.Scheduler.{
  PreparedEmbeddingInput, request_of, max_tokens, max_item_tokens,
}
use supermemory_rs.MemoryEngine.Executor.Batches.{IsAdmissible}
use supermemory_rs.MemoryEngine.Executor.Submission.{cut, token_counts}

-- The lengths at the front are those of the items at the front.
token_counts-split :
    (g rest : List ℕ) (values : List PreparedEmbeddingInput)
    → g ++ rest ≡ token_counts values
    → (token_counts (take (length g) values) ≡ g) × (token_counts (drop (length g) values) ≡ rest)
unfolding token_counts
token_counts-split [] rest values h = (refl, sym h)
token_counts-split (n ∷ g) rest [] h = absurd (cc h)
token_counts-split (n ∷ g) rest (v ∷ values) h =
    let tail : g ++ rest ≡ token_counts values = cc h in
    let first : n ≡ v.token_count = cc h in
    let (front, back) = token_counts-split g rest values tail in (cc (first, front), back)

length-token_counts :
    (values : List PreparedEmbeddingInput) → length (token_counts values) ≡ length values
unfolding token_counts
length-token_counts [] = refl
length-token_counts (v ∷ values) = ap suc (length-token_counts values)

longest_of-token_counts :
    (values : List PreparedEmbeddingInput) → longest_of (token_counts values) ≡ max_tokens values
unfolding token_counts max_tokens
longest_of-token_counts [] = refl
longest_of-token_counts (v ∷ values) = ap (max v.token_count) (longest_of-token_counts values)

module _ (max_items max_padded_tokens : ℕ) where
  piece-IsAdmissible :
      (some_items : 1 ≤ max_items) (piece : List PreparedEmbeddingInput) (reply : ℕ)
      → Fits max_items max_padded_tokens (token_counts piece)
      → IsAdmissible max_items max_padded_tokens (request_of reply piece)
  unfolding request_of max_item_tokens token_counts
  piece-IsAdmissible some_items [] reply h = absurd (omega (arith, h.nonempty))
  piece-IsAdmissible some_items (v ∷ vs) reply h =
      let same = length-token_counts (v ∷ vs) in
      let wide = longest_of-token_counts (v ∷ vs) in
      record {
        few = elim h.few [
          | inl few ↦ omega (arith, few, same)
          | inr one ↦ omega (arith, one, same, some_items)
        ];
        padded =
            subst (λ n. n * max_tokens (v ∷ vs) ≤ max_padded_tokens) same
              (subst (λ l. length (token_counts (v ∷ vs)) * l ≤ max_padded_tokens) wide h.padded);
        counted = refl;
        longest = omega arith;
      }

  pieces-IsAdmissible :
      (some_items : 1 ≤ max_items) (reply : ℕ) (groups : List (List ℕ))
      (values : List PreparedEmbeddingInput)
      → concat groups ≡ token_counts values
      → All (Fits max_items max_padded_tokens) groups
      → All
          (λ piece. IsAdmissible max_items max_padded_tokens (request_of reply piece))
          (cut (map (length {A = ℕ}) groups) values)
  unfolding cut
  pieces-IsAdmissible some_items reply [] values same fit = tt
  pieces-IsAdmissible some_items reply (g ∷ groups) values same fit =
      let (front, back) = token_counts-split g (concat groups) values same in
      (
        piece-IsAdmissible some_items (take (length g) values) reply
            (subst (Fits max_items max_padded_tokens) (sym front) fit.0),
        pieces-IsAdmissible some_items reply groups (drop (length g) values) (sym back) fit.1,
      )

  -- Where no item is over the token limit and a batch may have an item at all, a document is cut into
  -- requests that the scheduler may give to the model, each on its own.
  pub cut-IsAdmissible :
      (E : Type 0) (values : List PreparedEmbeddingInput) (reply : ℕ)
      → 1 ≤ max_items
      → All (λ t. t ≤ max_padded_tokens) (token_counts values)
      → (counts : List ℕ) × (microbatch_lengths {E = E}
            (token_counts values)
            max_items
            max_padded_tokens
          ≡ ok counts)
        × All
            (λ piece. IsAdmissible max_items max_padded_tokens (request_of reply piece))
            (cut counts values)
  cut-IsAdmissible E values reply some_items small =
      let (counts, runs, parts) =
        microbatch_lengths-IsPartition E (token_counts values) max_items max_padded_tokens small in
      (
        counts,
        runs,
        subst
            (λ cs.
              All (λ piece. IsAdmissible max_items max_padded_tokens (request_of reply piece))
                (cut cs values))
            parts.sizes
            (pieces-IsAdmissible some_items reply parts.groups values parts.in_order parts.fit),
      )
