-- ===== src/MemoryEngine/Chunking/Markdown.antt =====
-- The markdown path of crates/memory-engine/src/chunking.rs, and `chunk_text`. Lines are read by
-- their characters: the source reads bytes, and looks at none but ASCII.
use supermemory_rs.Prelude.{
  ℕ, zero, suc, ◌+◌, Text, Bool, true, false, not, ◌&&◌, ◌||◌, List, [], ◌∷◌, ◌++◌, Option, none,
  some, Result, ok, err, ◌==◌, ltb, leb, if◌then◌else◌, codes, trim, is_empty, starts_with, take,
  drop, filter_chars, utf16_len, contains, last_char, split, lines, join,
}
use supermemory_rs.MemoryEngine.Chunking.Plain.{push_trimmed, chunk_plain}

-- `isize`: `negsuc n` is -(n + 1).
pub data ℤ : Type 0 where
  pos : ℕ → ℤ
  negsuc : ℕ → ℤ

pub data ChunkingError : Type 0 where
  too_small too_large : ChunkingError

abbrev pub default_chunk_size : ℕ
default_chunk_size = 1075

abbrev pub max_chunk_size : ℕ
max_chunk_size = 28672

unfoldable pub normalize_extracted_text : Text → Text
normalize_extracted_text = filter_chars λ c. not ((c == 0) || (c == 0xfffd))

-- The length of the run of a kind of character at the start.
unfoldable pub run_length : (ℕ → Bool) → Text → ℕ
run_length p [] = 0
run_length p (c ∷ text) = let rest = run_length p text in if p c then suc rest else 0

unfoldable pub is_heading : Text → Bool
unfolding run_length
is_heading line =
    let hashes = run_length (λ c. c == b'#') line in
    leb 1 hashes && leb hashes 6 && starts_with (drop hashes line) (codes " ")

unfoldable pub is_unordered_item : Text → Bool
is_unordered_item [] = false
is_unordered_item (c ∷ line) =
    ((c == b'-') || (c == b'*') || (c == b'+')) && starts_with line (codes " ")

unfoldable pub is_ordered_item : Text → Bool
unfolding run_length
is_ordered_item line =
    let digits = run_length (λ c. leb b'0' c && leb c b'9') line in
    ltb 0 digits && starts_with (drop digits line) (codes ". ")

unfoldable pub ends_with_bar : Option ℕ → Bool
ends_with_bar none = false
ends_with_bar (some c) = c == b'|'

unfoldable pub is_fence : Text → Bool
is_fence line = starts_with line (codes "```")

-- What a line outside a fence adds.
unfoldable pub line_score : Text → ℕ
unfolding is_heading is_unordered_item is_ordered_item contains last_char ends_with_bar
line_score line =
    (if is_heading line then 2 else 0)
    + (if is_unordered_item line || is_ordered_item line then 1 else 0)
    + (if contains line (codes "](") && contains line (codes "[") then 1 else 0)
    + (if starts_with line (codes "> ")
          || (starts_with line (codes "|") && ends_with_bar (last_char line))
        then 1
        else 0)

unfoldable pub score_loop : List Text → Bool → ℕ → ℕ
unfolding is_fence line_score
score_loop [] fenced score = score
score_loop (line ∷ rest) fenced score =
    score_loop rest (if is_fence line then not fenced else fenced) (
      if is_fence line
      then if fenced then score else score + 2
      else if fenced
      then score
      else score + line_score line)

unfoldable pub looks_like_markdown : Text → Bool
unfolding score_loop lines
looks_like_markdown text = leb 3 (score_loop (take 100 (lines text)) false 0)

unfoldable pub close_section : List Text → List Text → List Text
unfolding push_trimmed join
close_section sections [] = sections
close_section sections (line ∷ current) = push_trimmed sections (join (0x0a ∷ []) (line ∷ current))

unfoldable pub section_loop : List Text → Bool → List Text → List Text → List Text
unfolding is_fence is_heading close_section
section_loop [] fenced current sections = close_section sections current
section_loop (line ∷ rest) fenced current sections =
    let opens = not (is_fence line) && not fenced && is_heading line in
    section_loop rest (if is_fence line then not fenced else fenced)
      (if opens then line ∷ [] else current ++ line ∷ [])
      (if opens then close_section sections current else sections)

unfoldable pub markdown_sections : Text → List Text
unfolding section_loop split
markdown_sections text = section_loop (split 0x0a text) false [] []

-- The heading that a section begins with.
unfoldable pub first_heading : List Text → Option Text
unfolding is_heading
first_heading [] = none
first_heading (line ∷ rest) = if is_heading line then some line else none

abbrev pub blank_line : Text
blank_line = 0x0a ∷ 0x0a ∷ []

unfoldable pub with_heading : Text → ℕ → Text → Text
unfolding utf16_len
with_heading heading limit chunk =
    let candidate = heading ++ blank_line ++ chunk in
    if leb (utf16_len candidate) limit && not (starts_with chunk heading) then candidate else chunk

unfoldable pub each_with_heading : Text → ℕ → List Text → List Text
unfolding with_heading
each_with_heading heading limit [] = []
each_with_heading heading limit (c ∷ cs) =
    with_heading heading limit c ∷ each_with_heading heading limit cs

-- Every chunk of a section but the first is given the section's heading.
unfoldable pub repeat_heading : Option Text → ℕ → List Text → List Text
unfolding each_with_heading
repeat_heading none limit split = split
repeat_heading (some heading) limit [] = []
repeat_heading (some heading) limit (c ∷ cs) = c ∷ each_with_heading heading limit cs

unfoldable pub append_section : Text → Text → Text
append_section [] section = section
append_section (c ∷ pending) section = (c ∷ pending) ++ blank_line ++ section

unfoldable pub overflows : Text → Text → ℕ → Bool
unfolding utf16_len
overflows pending section limit =
    not (is_empty pending)
    && ltb limit (utf16_len pending + ((if is_empty pending then 0 else 2) + utf16_len section))

unfoldable pub markdown_loop : ℕ → List Text → List Text → Text → Option (List Text)
unfolding utf16_len push_trimmed chunk_plain repeat_heading first_heading lines append_section
    overflows
markdown_loop limit [] chunks pending = some (push_trimmed chunks pending)
markdown_loop limit (section ∷ sections) chunks pending = elim (ltb limit (utf16_len section)) [
  | true ↦ elim (chunk_plain section limit) [
    | none ↦ none
    | some split ↦
        markdown_loop limit sections
          (push_trimmed chunks pending
            ++ repeat_heading (first_heading (lines section)) limit split)
          []
  ]
  | false ↦ elim (overflows pending section limit) [
    | true ↦ markdown_loop limit sections (push_trimmed chunks pending) section
    | false ↦ markdown_loop limit sections chunks (append_section pending section)
  ]
]

unfoldable pub chunk_sections : Text → ℕ → List Text → Option (List Text)
unfolding markdown_loop
chunk_sections text limit [] = some (text ∷ [])
chunk_sections text limit (s ∷ sections) = markdown_loop limit (s ∷ sections) [] []

unfoldable pub chunk_markdown : Text → ℕ → Option (List Text)
unfolding chunk_sections markdown_sections
chunk_markdown text limit = chunk_sections text limit (markdown_sections text)

-- The limit that a requested size stands for.
unfoldable pub chunk_limit : Option ℤ → Result ChunkingError ℕ
chunk_limit none = ok default_chunk_size
chunk_limit (some (negsuc zero)) = ok default_chunk_size
chunk_limit (some (negsuc (suc n))) = err too_small
chunk_limit (some (pos zero)) = ok default_chunk_size
chunk_limit (some (pos (suc n))) = if ltb max_chunk_size (suc n) then err too_large else ok (suc n)

-- The chunks of normalized text, by its kind.
unfoldable pub chunk_normalized : Text → ℕ → Option (List Text)
unfolding looks_like_markdown chunk_markdown chunk_plain
chunk_normalized normalized limit =
    if is_empty (trim normalized)
    then some []
    else if looks_like_markdown normalized
    then chunk_markdown normalized limit
    else chunk_plain normalized limit

unfoldable pub chunk_text : Text → Option ℤ → Result ChunkingError (Option (List Text))
unfolding chunk_limit normalize_extracted_text chunk_normalized
chunk_text text requested_size = elim (chunk_limit requested_size) [
  | err e ↦ err e
  | ok limit ↦ ok (chunk_normalized (normalize_extracted_text text) limit)
]
