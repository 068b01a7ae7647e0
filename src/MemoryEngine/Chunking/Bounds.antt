-- ===== src/MemoryEngine/Chunking/Bounds.antt =====
-- Chunking units always ends, and every chunk it gives is within the limit.
use supermemory_rs.Prelude.{
  ℕ, ◌/◌, ◌≤◌, min, Text, ◌≡◌, refl, inl, inr, List, [], ◌∷◌, ◌++◌, Option, some, ltb, leb,
  if◌then◌else◌, codes, trim, is_empty, length, utf16_len, split_whitespace, All, All-append,
  All-map, arith, Bool-cases,
}
use supermemory_rs.MemoryEngine.Chunking.Plain.{
  joined_len, retain_overlap, candidate_len, overlap_size, overlap_before, flush_units, fixed_width,
  units_loop, chunk_units, split_sentences, chunk_plain,
}
use supermemory_rs.MemoryEngine.Chunking.Lengths.{
  IsChunk, joined_len-before, fixed_width-All, flush-All, joined_len-nil, joined_len-one,
}
use supermemory_rs.MemoryEngine.Chunking.Words.{
  IsWord, split_whitespace-IsWord, length-split_whitespace,
}

-- A computation that gives a list, every element of which is a chunk.
abbrev pub Chunked : ℕ → Option (List Text) → Type 0
Chunked limit o = (result : List Text) × (o ≡ some result) × All (IsChunk limit) result

candidate_len-append :
    (pending : List Text) (separator unit : Text)
    → candidate_len pending separator unit ≡ joined_len (pending ++ unit ∷ []) separator
unfolding candidate_len
candidate_len-append [] separator unit =
    omega (arith, joined_len-nil separator, joined_len-one unit separator)
candidate_len-append (u ∷ []) separator unit = omega (
  arith,
  joined_len-before u unit [] separator,
  joined_len-one unit separator,
  joined_len-one u separator,
)
candidate_len-append (u ∷ v ∷ pending) separator unit = omega (
  arith,
  candidate_len-append (v ∷ pending) separator unit,
  joined_len-before u v pending separator,
  joined_len-before u v (pending ++ unit ∷ []) separator,
)

retain_overlap_le :
    (pending : List Text) (separator : Text) (budget : ℕ)
    → joined_len (retain_overlap pending separator budget) separator ≤ budget
unfolding retain_overlap
retain_overlap_le [] separator budget = omega (arith, joined_len-nil separator)
retain_overlap_le (u ∷ pending) separator budget =
    elim (Bool-cases (ltb budget (joined_len (u ∷ pending) separator))) [
      | inl e ↦ rw e (retain_overlap_le pending separator budget)
      | inr e ↦ rw e (ground arith)
    ]

overlap_before_le :
    (pending : List Text) (separator : Text) (limit : ℕ) (unit : Text)
    → utf16_len unit ≤ limit
    → joined_len (overlap_before pending separator limit unit ++ unit ∷ []) separator ≤ limit
unfolding overlap_before
overlap_before_le pending separator limit unit fits =
    let kept : List Text = retain_overlap pending separator (min overlap_size (limit / 2)) in
    elim (Bool-cases (ltb limit (candidate_len kept separator unit))) [
      | inl e ↦ rw e (omega (arith, joined_len-one unit separator))
      | inr e ↦ rw e (ground (arith, candidate_len-append kept separator unit))
    ]

module _ (oversized : Text → Option (List Text)) (separator : Text) (limit : ℕ) where
  -- A loop over units whose oversized ones can be split.
  units_loop-Chunked :
      (units chunks pending : List Text)
      → All (λ u. Chunked limit (oversized u)) units
      → All (IsChunk limit) chunks
      → joined_len pending separator ≤ limit
      → Chunked limit (units_loop oversized separator limit units chunks pending)
  unfolding units_loop
  units_loop-Chunked [] chunks pending good h fits = (
    flush_units chunks pending separator limit,
    refl,
    flush-All limit chunks pending separator h fits,
  )
  units_loop-Chunked (unit ∷ units) chunks pending ((split, e, whole), good) h fits =
      elim (Bool-cases (is_empty (trim unit))) [
        | inl blank ↦ rw (units_loop, blank) (units_loop-Chunked units chunks pending good h fits)
        | inr full ↦ elim (Bool-cases (ltb limit (utf16_len unit))) [
          | inl long ↦
              rw (units_loop, full, long, e)
                (units_loop-Chunked units (flush_units chunks pending separator limit ++ split) []
                  good
                  (All-append _ (flush_units chunks pending separator limit) split
                    (flush-All limit chunks pending separator h fits) whole)
                  (omega (arith, joined_len-nil separator)))
          | inr short ↦ elim (Bool-cases (ltb limit (candidate_len pending separator unit))) [
            | inl over ↦
                rw (units_loop, full, short, over)
                  (units_loop-Chunked units (flush_units chunks pending separator limit)
                    (overlap_before pending separator limit unit ++ unit ∷ []) good
                    (flush-All limit chunks pending separator h fits)
                    (overlap_before_le pending separator limit unit (ground arith)))
            | inr room ↦
                rw (units_loop, full, short, room)
                  (units_loop-Chunked units chunks (pending ++ unit ∷ []) good h
                    (ground (arith, candidate_len-append pending separator unit)))
          ]
        ]
      ]

module _ (limit : ℕ) (two : 2 ≤ limit) where
  words-Chunked :
      (words : List Text) (separator : Text)
      → All IsWord words
      → Chunked limit (chunk_units 1 words separator limit)
  unfolding chunk_units
  words-Chunked words separator h =
      units_loop-Chunked _ separator limit words [] [] (All-map IsWord _ single words h) tt
        (omega (arith, joined_len-nil separator))
    where
      single :
          (w : Text)
          → IsWord w
          → Chunked limit (
              if leb (length (split_whitespace w)) 1
              then some (fixed_width w limit)
              else chunk_units 0 (split_whitespace w) (codes " ") limit)
      single w word = elim (Bool-cases (leb (length (split_whitespace w)) 1)) [
        | inl e ↦ rw e (fixed_width w limit, refl, fixed_width-All limit w two)
        | inr e ↦ absurd (ground (arith, length-split_whitespace w word))
      ]

  -- Two rounds are enough for any units.
  pub chunk_units-Chunked :
      (units : List Text) (separator : Text) → Chunked limit (chunk_units 2 units separator limit)
  unfolding chunk_units
  chunk_units-Chunked units separator =
      units_loop-Chunked _ separator limit units [] [] (each units) tt
        (omega (arith, joined_len-nil separator))
    where
      either :
          (u : Text)
          → Chunked limit (
              if leb (length (split_whitespace u)) 1
              then some (fixed_width u limit)
              else chunk_units 1 (split_whitespace u) (codes " ") limit)
      either u = elim (Bool-cases (leb (length (split_whitespace u)) 1)) [
        | inl e ↦ rw e (fixed_width u limit, refl, fixed_width-All limit u two)
        | inr e ↦ rw e (words-Chunked (split_whitespace u) (codes " ") (split_whitespace-IsWord u))
      ]

      each :
          (us : List Text)
          → All
              (λ u. Chunked limit (
                if leb (length (split_whitespace u)) 1
                then some (fixed_width u limit)
                else chunk_units 1 (split_whitespace u) (codes " ") limit))
              us
      each [] = tt
      each (u ∷ us) = (either u, each us)

  pub chunk_plain-Chunked : (text : Text) → Chunked limit (chunk_plain text limit)
  unfolding chunk_plain
  chunk_plain-Chunked text = chunk_units-Chunked (split_sentences text) (codes " ")
