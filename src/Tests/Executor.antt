-- ===== src/Tests/Executor.antt =====
-- crates/memory-engine/src/embedding_executor.rs at the inputs of its own tests.
use supermemory_rs.Prelude.{ℕ, ◌≡◌, refl, List, [], ◌∷◌, ok, err, arith}
use supermemory_rs.MemoryEngine.Executor.Microbatch.{microbatch_lengths, too_many_tokens}
use supermemory_rs.MemoryEngine.Executor.Partition.{
  IsPartition, microbatch_lengths-IsPartition, microbatch_lengths-too_many_tokens,
}

large_mixed_document :
    microbatch_lengths {E = ℕ} (2 ∷ 7 ∷ 2 ∷ 7 ∷ 2 ∷ 2 ∷ []) 3 16 ≡ ok (2 ∷ 2 ∷ 2 ∷ [])
unfolding microbatch_lengths
large_mixed_document = refl

microbatch_lengths-IsPartition_example :
    (counts : List ℕ) × (microbatch_lengths {E = ℕ} (2 ∷ 7 ∷ 2 ∷ 7 ∷ 2 ∷ 2 ∷ []) 3 16 ≡ ok counts)
    × IsPartition 3 16 (2 ∷ 7 ∷ 2 ∷ 7 ∷ 2 ∷ 2 ∷ []) counts
microbatch_lengths-IsPartition_example =
    microbatch_lengths-IsPartition ℕ (2 ∷ 7 ∷ 2 ∷ 7 ∷ 2 ∷ 2 ∷ []) 3 16 (omega arith)

microbatch_lengths-too_many_tokens_example :
    microbatch_lengths {E = ℕ} (3 ∷ 17 ∷ []) 3 16 ≡ err (too_many_tokens 16 17)
microbatch_lengths-too_many_tokens_example =
    microbatch_lengths-too_many_tokens ℕ (3 ∷ 17 ∷ []) 3 16 17 refl
