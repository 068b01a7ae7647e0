-- ===== src/Tests/Chunking.antt =====
-- crates/memory-engine/src/chunking.rs at the inputs of tests/chunking.rs and others.
use supermemory_rs.Prelude.{
  ◌≤◌, Text, codes, ◌≡◌, refl, List, [], ◌∷◌, some, ok, err, OnOk, ◌↔◌, All, arith, is_whitespace,
  trim, split_whitespace,
}
use supermemory_rs.MemoryEngine.Chunking.Markdown.{
  pos, max_chunk_size, too_small, too_large, chunk_limit, chunk_text,
}
use supermemory_rs.MemoryEngine.Chunking.Lengths.{IsChunk}
use supermemory_rs.MemoryEngine.Chunking.Limit.{
  IsBelow, IsAbove, chunk_text-IsChunk, chunk_limit-bounds,
}

abbrev emoji : Text
emoji = 0x1F600 ∷ 0x1F600 ∷ 0x1F600 ∷ 0x1F600 ∷ 0x1F600 ∷ []

three_wide :
    chunk_text emoji (some (pos 6))
    ≡ ok (some ((0x1F600 ∷ 0x1F600 ∷ 0x1F600 ∷ []) ∷ (0x1F600 ∷ 0x1F600 ∷ []) ∷ []))
unfolding chunk_text is_whitespace trim split_whitespace
three_wide = refl

chunk_text-IsChunk_example :
    (chunks : List Text) × (chunk_text (codes "one. two three") (some (pos 6)) ≡ ok (some chunks))
    × All (IsChunk 6) chunks
unfolding chunk_limit
chunk_text-IsChunk_example =
    chunk_text-IsChunk (codes "one. two three") (some (pos 6)) 6 refl (omega arith)

chunk_limit-bounds_example :
    OnOk (λ limit. (1 ≤ limit) × (limit ≤ max_chunk_size)) (chunk_limit (some (pos 28673)))
    × ((chunk_limit (some (pos 28673)) ≡ err too_small) ↔ IsBelow (some (pos 28673)))
    × ((chunk_limit (some (pos 28673)) ≡ err too_large) ↔ IsAbove (some (pos 28673)))
chunk_limit-bounds_example = chunk_limit-bounds (some (pos 28673))
