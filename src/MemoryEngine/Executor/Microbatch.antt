-- ===== src/MemoryEngine/Executor/Microbatch.antt =====
-- `microbatch_lengths` of crates/memory-engine/src/embedding_executor.rs.
use supermemory_rs.Prelude.{
  ℕ, ◌+◌, ◌*◌, max, Bool, ◌&&◌, ◌||◌, List, [], ◌∷◌, ◌++◌, Result, ok, err, ltb, if◌then◌else◌,
}

-- The errors of the executor that this code returns. An inference error is carried as a value.
pub data EmbeddingExecutorError (E : Type 0) : Type 0 where
  closed : EmbeddingExecutorError E
  too_many_tokens : ℕ → ℕ → EmbeddingExecutorError E
  batch_failed : E → EmbeddingExecutorError E
  embedding_failed : E → EmbeddingExecutorError E

-- The loop's variables.
pub record Batching : Type 0 where
  pub batches : List ℕ
  pub items : ℕ
  pub longest : ℕ

-- The test that closes the current batch before an item of `tokens` tokens.
unfoldable pub closes_batch : ℕ → ℕ → Batching → ℕ → Bool
closes_batch max_items max_padded_tokens b tokens =
    let next_items = b.items + 1 in
    let next_longest = max b.longest tokens in
    ltb 0 b.items && (ltb max_items next_items || ltb max_padded_tokens (next_items * next_longest))

unfoldable pub close_batch : Batching → Batching
close_batch b = record { batches = b.batches ++ b.items ∷ []; items = 0; longest = 1 }

unfoldable pub add_item : ℕ → Batching → Batching
add_item tokens b = record b { items = b.items + 1; longest = max b.longest tokens }

module _ {E : Type 0} (max_items max_padded_tokens : ℕ) where
  unfoldable pub microbatch_loop : List ℕ → Batching → Result (EmbeddingExecutorError E) (List ℕ)
  unfolding closes_batch close_batch add_item
  microbatch_loop [] b = ok (if ltb 0 b.items then b.batches ++ b.items ∷ [] else b.batches)
  microbatch_loop (tokens ∷ lengths) b =
      let rest = microbatch_loop lengths (
        add_item tokens
          (if closes_batch max_items max_padded_tokens b tokens then close_batch b else b)) in
      if ltb max_padded_tokens tokens then err (too_many_tokens max_padded_tokens tokens) else rest

unfoldable pub microbatch_lengths :
    {E : Type 0} → List ℕ → ℕ → ℕ → Result (EmbeddingExecutorError E) (List ℕ)
unfolding microbatch_loop
microbatch_lengths lengths max_items max_padded_tokens =
    microbatch_loop max_items max_padded_tokens lengths
      (record { batches = []; items = 0; longest = 1 })
