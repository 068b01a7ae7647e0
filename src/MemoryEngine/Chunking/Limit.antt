-- ===== src/MemoryEngine/Chunking/Limit.antt =====
-- Chunks of markdown, and of any text: `chunk_text` gives chunks within the limit.
use supermemory_rs.Prelude.{
  ℕ, zero, suc, ◌≤◌, ◌<◌, ◌≡◌, refl, inl, inr, Text, false, not, ◌&&◌, List, [], ◌∷◌, ◌++◌, Option,
  none, some, ok, err, OnOk, ◌↔◌, ltb, leb, trim, is_empty, starts_with, utf16_len, lines, All,
  All-append, arith, Bool-cases,
}
use supermemory_rs.MemoryEngine.Chunking.Plain.{push_trimmed}
use supermemory_rs.MemoryEngine.Chunking.Markdown.{
  ℤ, too_small, too_large, pos, negsuc, max_chunk_size, blank_line, with_heading, each_with_heading,
  repeat_heading, first_heading, append_section, overflows, markdown_loop, chunk_sections,
  markdown_sections, chunk_markdown, chunk_limit, looks_like_markdown, chunk_normalized,
  normalize_extracted_text, chunk_text,
}
use supermemory_rs.MemoryEngine.Chunking.Lengths.{IsChunk, utf16_len-append, push_trimmed-All}
use supermemory_rs.MemoryEngine.Chunking.Bounds.{Chunked, chunk_plain-Chunked}
use supermemory_rs.MemoryEngine.Chunking.Sections.{markdown_sections-filled}

module _ (limit : ℕ) where
  with_heading-IsChunk :
      (heading chunk : Text)
      → IsChunk limit chunk
      → IsChunk limit (with_heading heading limit chunk)
  unfolding with_heading
  with_heading-IsChunk heading chunk h =
      let candidate : Text = heading ++ blank_line ++ chunk in
      elim (Bool-cases (leb (utf16_len candidate) limit && not (starts_with chunk heading))) [
        | inr e ↦ rw e h
        | inl e ↦ rw e (record {
          filled = omega (arith, h.filled, utf16_len-append (heading ++ blank_line) chunk);
          fits = ground arith;
        })
      ]

  each_with_heading-All :
      (heading : Text) (chunks : List Text)
      → All (IsChunk limit) chunks
      → All (IsChunk limit) (each_with_heading heading limit chunks)
  unfolding each_with_heading
  each_with_heading-All heading [] h = tt
  each_with_heading-All heading (c ∷ chunks) h =
      (with_heading-IsChunk heading c h.0, each_with_heading-All heading chunks h.1)

  repeat_heading-All :
      (heading : Option Text) (chunks : List Text)
      → All (IsChunk limit) chunks
      → All (IsChunk limit) (repeat_heading heading limit chunks)
  unfolding repeat_heading
  repeat_heading-All none chunks h = h
  repeat_heading-All (some heading) [] h = tt
  repeat_heading-All (some heading) (c ∷ chunks) h = (h.0, each_with_heading-All heading chunks h.1)

  append_section_le :
      (pending section : Text)
      → utf16_len section ≤ limit
      → overflows pending section limit ≡ false
      → utf16_len (append_section pending section) ≤ limit
  unfolding append_section overflows
  append_section_le [] section fits e = fits
  append_section_le (c ∷ pending) section fits e = ground (
    arith,
    two,
    utf16_len-append ((c ∷ pending) ++ blank_line) section,
    utf16_len-append (c ∷ pending) blank_line,
  )
    where
      two : utf16_len blank_line ≡ 2
      two = unfold utf16_len in refl

  markdown_loop-Chunked :
      (sections chunks : List Text) (pending : Text)
      → 2 ≤ limit
      → All (IsChunk limit) chunks
      → utf16_len pending ≤ limit
      → Chunked limit (markdown_loop limit sections chunks pending)
  unfolding markdown_loop
  markdown_loop-Chunked [] chunks pending two h fits =
      (push_trimmed chunks pending, refl, push_trimmed-All limit chunks pending h fits)
  markdown_loop-Chunked (s ∷ sections) chunks pending two h fits =
      elim (Bool-cases (ltb limit (utf16_len s))) [
        | inl long ↦
            let plain = chunk_plain-Chunked limit two s in
            rw (markdown_loop, long, plain.1)
              (markdown_loop-Chunked sections
                (push_trimmed chunks pending
                  ++ repeat_heading (first_heading (lines s)) limit plain.0)
                [] two
                (All-append _ (push_trimmed chunks pending) _
                  (push_trimmed-All limit chunks pending h fits)
                  (repeat_heading-All (first_heading (lines s)) plain.0 plain.2))
                (unfold utf16_len in omega arith))
        | inr short ↦ elim (Bool-cases (overflows pending s limit)) [
          | inl over ↦
              rw (markdown_loop, short, over)
                (markdown_loop-Chunked sections (push_trimmed chunks pending) s two
                  (push_trimmed-All limit chunks pending h fits) (ground arith))
          | inr room ↦
              rw (markdown_loop, short, room)
                (markdown_loop-Chunked sections chunks (append_section pending s) two h
                  (append_section_le pending s (ground arith) room))
        ]
      ]

  chunk_sections-Chunked :
      (text : Text) (sections : List Text)
      → 2 ≤ limit
      → is_empty sections ≡ false
      → Chunked limit (chunk_sections text limit sections)
  unfolding chunk_sections
  chunk_sections-Chunked text [] two h = absurd (ground arith)
  chunk_sections-Chunked text (s ∷ sections) two h =
      markdown_loop-Chunked (s ∷ sections) [] [] two tt (unfold utf16_len in omega arith)

  pub chunk_normalized-Chunked :
      (text : Text) → 2 ≤ limit → Chunked limit (chunk_normalized text limit)
  unfolding chunk_normalized chunk_markdown
  chunk_normalized-Chunked text two = elim (Bool-cases (is_empty (trim text))) [
    | inl blank ↦ rw blank ([], refl, tt)
    | inr full ↦ elim (Bool-cases (looks_like_markdown text)) [
      | inl md ↦
          rw (full, md)
            (chunk_sections-Chunked text (markdown_sections text) two
              (markdown_sections-filled text full))
      | inr plain ↦ rw (full, plain) (chunk_plain-Chunked limit two text)
    ]
  ]

-- Whatever the text, if the requested size stands for a limit of at least two, then `chunk_text`
-- returns chunks: each holds a character and is no longer than the limit in UTF-16 code units.
pub chunk_text-IsChunk :
    (text : Text) (requested : Option ℤ) (limit : ℕ)
    → chunk_limit requested ≡ ok limit
    → 2 ≤ limit
    → (chunks : List Text) × (chunk_text text requested ≡ ok (some chunks))
      × All (IsChunk limit) chunks
unfolding chunk_text
chunk_text-IsChunk text requested limit e two =
    let given = chunk_normalized-Chunked limit (normalize_extracted_text text) two in
    (given.0, rw (chunk_text, e, given.1) refl, given.2)

-- A size below -1.
abbrev pub IsBelow : Option ℤ → Type 0
IsBelow (some (negsuc (suc n))) = Unit
IsBelow _ = ⊥

-- A size above the largest.
abbrev pub IsAbove : Option ℤ → Type 0
IsAbove (some (pos n)) = max_chunk_size < n
IsAbove _ = ⊥

-- A requested size is accepted as a limit between 1 and 28672 exactly when it is at least -1 and at
-- most 28672; what is smaller is reported as too small and what is larger as too large.
pub chunk_limit-bounds :
    (requested : Option ℤ)
    → OnOk (λ limit. (1 ≤ limit) × (limit ≤ max_chunk_size)) (chunk_limit requested)
      × ((chunk_limit requested ≡ err too_small) ↔ IsBelow requested)
      × ((chunk_limit requested ≡ err too_large) ↔ IsAbove requested)
unfolding chunk_limit
chunk_limit-bounds none = ground arith
chunk_limit-bounds (some (negsuc zero)) = ground arith
chunk_limit-bounds (some (negsuc (suc n))) = ground arith
chunk_limit-bounds (some (pos zero)) = ground arith
chunk_limit-bounds (some (pos (suc n))) = ground arith
