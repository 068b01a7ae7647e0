-- ===== src/MemoryEngine/Executor/Submission.antt =====
-- `embed_owned` of crates/memory-engine/src/embedding_executor.rs: a document is cut into requests
-- that are submitted one after the other. The tokenizer and a submission are parameters.
use supermemory_rs.Prelude.{ℕ, Text, List, [], ◌∷◌, ◌++◌, Result, ok, err, take, drop}
use supermemory_rs.MemoryEngine.Executor.Microbatch.{
  EmbeddingExecutorError, embedding_failed, microbatch_lengths,
}
use supermemory_rs.MemoryEngine.Executor.Scheduler.{PreparedEmbeddingInput, EmbeddedText}

-- `by_ref().take(count)` for each count.
unfoldable pub cut : {A : Type 0} → List ℕ → List A → List (List A)
cut [] xs = []
cut (n ∷ counts) xs = take n xs ∷ cut counts (drop n xs)

unfoldable pub token_counts : List PreparedEmbeddingInput → List ℕ
token_counts [] = []
token_counts (v ∷ values) = v.token_count ∷ token_counts values

unfoldable pub prepare_all :
    {E : Type 0}
    → (Text → Result E PreparedEmbeddingInput)
    → List Text
    → Result (EmbeddingExecutorError E) (List PreparedEmbeddingInput)
prepare_all prepare [] = ok []
prepare_all prepare (t ∷ texts) =
    let rest = prepare_all prepare texts in
    elim (prepare t) [
      | err e ↦ err (embedding_failed e)
      | ok v ↦ elim rest [ err e ↦ err e | ok vs ↦ ok (v ∷ vs) ]
    ]

module _ {W E : Type 0} where
  -- The loop over the batches.
  unfoldable pub submit_all :
      (List PreparedEmbeddingInput → Result (EmbeddingExecutorError E) (List (EmbeddedText W)))
      → List (List PreparedEmbeddingInput)
      → Result (EmbeddingExecutorError E) (List (EmbeddedText W))
  submit_all submit [] = ok []
  submit_all submit (piece ∷ pieces) =
      let rest = submit_all submit pieces in
      elim (submit piece) [
        | err e ↦ err e
        | ok out ↦ elim rest [ err e ↦ err e | ok more ↦ ok (out ++ more) ]
      ]

  unfoldable pub embed_owned :
      (Text → Result E PreparedEmbeddingInput)
      → (List PreparedEmbeddingInput → Result (EmbeddingExecutorError E) (List (EmbeddedText W)))
      → ℕ
      → ℕ
      → List Text
      → Result (EmbeddingExecutorError E) (List (EmbeddedText W))
  unfolding prepare_all token_counts microbatch_lengths cut submit_all
  embed_owned prepare submit max_items max_padded_tokens texts = elim (prepare_all prepare texts) [
    | err e ↦ err e
    | ok values ↦ elim (microbatch_lengths (token_counts values) max_items max_padded_tokens) [
      | err e ↦ err e
      | ok counts ↦ submit_all submit (cut counts values)
    ]
  ]
