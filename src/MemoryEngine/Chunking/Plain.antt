-- ===== src/MemoryEngine/Chunking/Plain.antt =====
-- The plain path of crates/memory-engine/src/chunking.rs: sentences, units and fixed widths.
-- `chunk_units` calls itself on the words of a unit that is too long; `none` says that its fuel ran
-- out, which two rounds never do.
use supermemory_rs.Prelude.{
  ℕ, zero, suc, ◌+◌, ◌-◌, ◌*◌, ◌/◌, min, Text, Bool, true, false, not, ◌&&◌, ◌||◌, List, [], ◌∷◌,
  ◌++◌, Option, none, some, ◌==◌, ltb, leb, if◌then◌else◌, codes, trim, is_empty, is_whitespace,
  length, sum, map, len_utf16, utf16_len, join, split_whitespace,
}

abbrev pub overlap_size : ℕ
overlap_size = 200

abbrev pub short_chunk : ℕ
short_chunk = 322

-- The value, trimmed, as one more text, unless nothing is left.
unfoldable pub push_trimmed : List Text → Text → List Text
push_trimmed target value = if is_empty (trim value) then target else target ++ trim value ∷ []

-- '.' '!' '?'
unfoldable pub ends_sentence : ℕ → Bool
ends_sentence c = (c == b'.') || (c == b'!') || (c == b'?')

unfoldable pub next_is_space : Text → Bool
next_is_space [] = true
next_is_space (c ∷ text) = is_whitespace c

-- `current` is text[start..index].
unfoldable pub sentence_loop : Text → Text → List Text → List Text
unfolding push_trimmed ends_sentence next_is_space
sentence_loop current [] result = if is_empty current then result else push_trimmed result current
sentence_loop current (c ∷ text) result =
    let closes = ends_sentence c && next_is_space text in
    sentence_loop (if closes then [] else current ++ c ∷ []) text
      (if closes then push_trimmed result (current ++ c ∷ []) else result)

unfoldable pub split_sentences : Text → List Text
unfolding sentence_loop
split_sentences text = sentence_loop [] text []

unfoldable pub fixed_width_loop : ℕ → Text → Text → List Text → List Text
unfolding push_trimmed utf16_len
fixed_width_loop limit [] pending chunks = push_trimmed chunks pending
fixed_width_loop limit (c ∷ text) pending chunks =
    let full = not (is_empty pending) && ltb limit (utf16_len pending + len_utf16 c) in
    fixed_width_loop limit text (if full then c ∷ [] else pending ++ c ∷ [])
      (if full then push_trimmed chunks pending else chunks)

unfoldable pub fixed_width : Text → ℕ → List Text
unfolding fixed_width_loop
fixed_width text limit = fixed_width_loop limit text [] []

unfoldable pub joined_len : List Text → Text → ℕ
unfolding utf16_len
joined_len units separator = sum (map utf16_len units) + (length units - 1) * utf16_len separator

unfoldable pub retain_overlap : List Text → Text → ℕ → List Text
unfolding joined_len
retain_overlap [] separator budget = []
retain_overlap (u ∷ pending) separator budget =
    let rest = retain_overlap pending separator budget in
    if ltb budget (joined_len (u ∷ pending) separator) then rest else u ∷ pending

-- `chunks.last_mut()` followed by two `push_str`: the last chunk, if there is one and the chunk fits
-- behind it, takes it.
unfoldable pub append_short : ℕ → Text → Text → List Text → Option (List Text)
unfolding utf16_len
append_short limit separator chunk [] = none
append_short limit separator chunk (previous ∷ []) =
    if leb (utf16_len previous + utf16_len separator + utf16_len chunk) limit
    then some ((previous ++ separator ++ chunk) ∷ [])
    else none
append_short limit separator chunk (c ∷ previous ∷ chunks) =
    elim (append_short limit separator chunk (previous ∷ chunks)) [
      | none ↦ none
      | some rest ↦ some (c ∷ rest)
    ]

-- The chunks after `flush_units`; `pending` is empty after it.
unfoldable pub flush_units : List Text → List Text → Text → ℕ → List Text
unfolding join append_short utf16_len
flush_units chunks [] separator limit = chunks
flush_units chunks (u ∷ pending) separator limit =
    let chunk = trim (join separator (u ∷ pending)) in
    let pushed = if is_empty chunk then chunks else chunks ++ chunk ∷ [] in
    if ltb (utf16_len chunk) short_chunk
    then elim (append_short limit separator chunk chunks) [ some merged ↦ merged | none ↦ pushed ]
    else pushed

-- The length of the pending units with one more behind them.
unfoldable pub candidate_len : List Text → Text → Text → ℕ
unfolding joined_len utf16_len
candidate_len pending separator unit =
    joined_len pending separator
    + (if is_empty pending then 0 else utf16_len separator)
    + utf16_len unit

-- The pending units before a unit that does not fit behind all of them.
unfoldable pub overlap_before : List Text → Text → ℕ → Text → List Text
unfolding retain_overlap candidate_len
overlap_before pending separator limit unit =
    let kept = retain_overlap pending separator (min overlap_size (limit / 2)) in
    if ltb limit (candidate_len kept separator unit) then [] else kept

-- The loop over the units. `oversized` splits a unit that is longer than the limit.
unfoldable pub units_loop :
    (Text → Option (List Text)) → Text → ℕ → List Text → List Text → List Text → Option (List Text)
unfolding flush_units candidate_len overlap_before
units_loop oversized separator limit [] chunks pending =
    some (flush_units chunks pending separator limit)
units_loop oversized separator limit (unit ∷ units) chunks pending = elim (is_empty (trim unit)) [
  | true ↦ units_loop oversized separator limit units chunks pending
  | false ↦ elim (ltb limit (utf16_len unit)) [
    | true ↦ elim (oversized unit) [
      | none ↦ none
      | some split ↦
          units_loop oversized separator limit units
            (flush_units chunks pending separator limit ++ split) []
    ]
    | false ↦ elim (ltb limit (candidate_len pending separator unit)) [
      | true ↦
          units_loop oversized separator limit units (flush_units chunks pending separator limit)
            (overlap_before pending separator limit unit ++ unit ∷ [])
      | false ↦ units_loop oversized separator limit units chunks (pending ++ unit ∷ [])
    ]
  ]
]

unfoldable pub chunk_units : ℕ → List Text → Text → ℕ → Option (List Text)
unfolding units_loop fixed_width
chunk_units zero units separator limit = none
chunk_units (suc fuel) units separator limit =
    units_loop
      (λ unit.
        let words = split_whitespace unit in
        let split = chunk_units fuel words (codes " ") limit in
        if leb (length words) 1 then some (fixed_width unit limit) else split)
      separator limit units [] []

unfoldable pub chunk_plain : Text → ℕ → Option (List Text)
unfolding split_sentences chunk_units
chunk_plain text limit = chunk_units 2 (split_sentences text) (codes " ") limit
