-- ===== src/MemoryEngine/Chunking/Lengths.antt =====
-- Lengths in UTF-16 of what chunking builds, and the chunks that are pushed.
use supermemory_rs.Prelude.{
  ℕ, suc, ◌+◌, ◌-◌, ◌*◌, ◌≤◌, ◌<◌, Text, true, false, ◌≡◌, ◌⊎◌, inl, inr, List, [], ◌∷◌, ◌++◌, some,
  ltb, leb, if◌then◌else◌, trim, trim_start, trim_end, is_empty, length, len_utf16, utf16_len, join,
  All, All-append, arith, Bool-cases, Option-cases, not, ◌&&◌,
}
use supermemory_rs.MemoryEngine.Chunking.Plain.{
  push_trimmed, short_chunk, joined_len, append_short, flush_units, fixed_width_loop, fixed_width,
}
use native.Mathlib.Nat.{suc-mul}

-- A chunk within the limit that is not empty.
pub record IsChunk (limit : ℕ) (chunk : Text) : Type 0 where
  pub filled : 0 < utf16_len chunk
  pub fits : utf16_len chunk ≤ limit

pub utf16_len-append : (x y : Text) → utf16_len (x ++ y) ≡ utf16_len x + utf16_len y
unfolding utf16_len
utf16_len-append [] y = omega arith
utf16_len-append (c ∷ x) y = omega (arith, utf16_len-append x y)

trim_start_le : (t : Text) → utf16_len (trim_start t) ≤ utf16_len t
unfolding trim_start utf16_len
trim_start_le [] = omega arith
trim_start_le (c ∷ t) = ground (arith, trim_start_le t)

trim_end_le : (t : Text) → utf16_len (trim_end t) ≤ utf16_len t
unfolding trim_end utf16_len
trim_end_le [] = omega arith
trim_end_le (c ∷ t) = ground (arith, trim_end_le t)

pub trim_le : (t : Text) → utf16_len (trim t) ≤ utf16_len t
unfolding trim
trim_le t = omega (arith, trim_start_le t, trim_end_le (trim_start t))

pub filled_of : (t : Text) → is_empty t ≡ false → 0 < utf16_len t
unfolding utf16_len
filled_of [] h = cc
filled_of (c ∷ t) h = ground arith

zero_times : (s : ℕ) → (0 - 1) * s ≡ 0
zero_times s = omega arith

times_before : (n s : ℕ) → (suc (suc n) - 1) * s ≡ s + (suc n - 1) * s
times_before n s =
    let two : suc (suc n) - 1 ≡ suc n = omega arith in
    let one : suc n - 1 ≡ n = omega arith in rw (two, one) (omega (arith, suc-mul n s))

pub joined_len-nil : (separator : Text) → joined_len [] separator ≡ 0
unfolding joined_len
joined_len-nil separator = omega (arith, zero_times (utf16_len separator))

pub joined_len-one : (u separator : Text) → joined_len (u ∷ []) separator ≡ utf16_len u
unfolding joined_len
joined_len-one u separator = omega arith

-- Joined with the separator, units with one before them are as long as that one and the separator more.
pub joined_len-before :
    (u v : Text) (units : List Text) (separator : Text)
    → joined_len (u ∷ v ∷ units) separator
      ≡ utf16_len u + utf16_len separator + joined_len (v ∷ units) separator
unfolding joined_len
joined_len-before u v units separator =
    omega (arith, times_before (length units) (utf16_len separator))

pub utf16_len-join :
    (separator : Text) (units : List Text)
    → utf16_len (join separator units) ≡ joined_len units separator
unfolding join
utf16_len-join separator [] = unfold utf16_len in omega (arith, joined_len-nil separator)
utf16_len-join separator (u ∷ []) = omega (arith, joined_len-one u separator)
utf16_len-join separator (u ∷ v ∷ units) = omega (
  arith,
  utf16_len-append (u ++ separator) (join separator (v ∷ units)),
  utf16_len-append u separator,
  utf16_len-join separator (v ∷ units),
  joined_len-before u v units separator,
)

module _ (limit : ℕ) where
  pub push_trimmed-All :
      (target : List Text) (value : Text)
      → All (IsChunk limit) target
      → utf16_len value ≤ limit
      → All (IsChunk limit) (push_trimmed target value)
  unfolding push_trimmed
  push_trimmed-All target value h fits = elim (Bool-cases (is_empty (trim value))) [
    | inl e ↦ rw e h
    | inr e ↦ rw e (
        All-append _ target (trim value ∷ []) h
          (record { filled = filled_of (trim value) e; fits = omega (arith, trim_le value) }, tt))
  ]

  fixed_loop-All :
      (text pending : Text) (chunks : List Text)
      → 2 ≤ limit
      → utf16_len pending ≤ limit
      → All (IsChunk limit) chunks
      → All (IsChunk limit) (fixed_width_loop limit text pending chunks)
  unfolding fixed_width_loop
  fixed_loop-All [] pending chunks two fits h = push_trimmed-All chunks pending h fits
  fixed_loop-All (c ∷ text) pending chunks two fits h =
      elim (Bool-cases (not (is_empty pending) && ltb limit (utf16_len pending + len_utf16 c))) [
        | inl e ↦ rw e (
            fixed_loop-All text (c ∷ []) (push_trimmed chunks pending) two
              (unfold utf16_len in ground arith) (push_trimmed-All chunks pending h fits))
        | inr e ↦ rw e (fixed_loop-All text (pending ++ c ∷ []) chunks two (room pending e) h)
      ]
    where
      one : utf16_len (c ∷ []) ≡ len_utf16 c
      one = unfold utf16_len in omega arith

      room :
          (p : Text)
          → (not (is_empty p) && ltb limit (utf16_len p + len_utf16 c)) ≡ false
          → utf16_len (p ++ c ∷ []) ≤ limit
      room [] e = ground (arith, one)
      room (d ∷ p) e = ground (arith, one, utf16_len-append (d ∷ p) (c ∷ []))

  -- Splitting at a fixed width gives chunks, where the limit has room for any character.
  pub fixed_width-All : (text : Text) → 2 ≤ limit → All (IsChunk limit) (fixed_width text limit)
  unfolding fixed_width
  fixed_width-All text two = fixed_loop-All text [] [] two (unfold utf16_len in omega arith) tt

  append_short-All :
      (separator chunk : Text) (chunks : List Text) {merged : List Text}
      → All (IsChunk limit) chunks
      → append_short limit separator chunk chunks ≡ some merged
      → All (IsChunk limit) merged
  unfolding append_short
  append_short-All separator chunk [] h e = cc
  append_short-All separator chunk (previous ∷ []) {merged} h e =
      elim (Bool-cases (leb (utf16_len previous + utf16_len separator + utf16_len chunk) limit)) [
        | inr over ↦ absurd (ground arith)
        | inl fits ↦
            let same : (previous ++ separator ++ chunk) ∷ [] ≡ merged = ground arith in
            rw (← same) (
              record {
                filled = omega (
                  arith,
                  h.0.filled,
                  utf16_len-append (previous ++ separator) chunk,
                  utf16_len-append previous separator,
                );
                fits = ground (
                  arith,
                  utf16_len-append (previous ++ separator) chunk,
                  utf16_len-append previous separator,
                );
              },
              tt,
            )
      ]
  append_short-All separator chunk (c ∷ previous ∷ chunks) {merged} h e =
      elim (Option-cases (append_short limit separator chunk (previous ∷ chunks))) [
        | inl over ↦ absurd (ground arith)
        | inr (rest, fits) ↦
            let same : c ∷ rest ≡ merged = ground arith in
            rw (← same) (h.0, append_short-All separator chunk (previous ∷ chunks) h.1 fits)
      ]

  -- Flushing units that fit together.
  pub flush-All :
      (chunks pending : List Text) (separator : Text)
      → All (IsChunk limit) chunks
      → joined_len pending separator ≤ limit
      → All (IsChunk limit) (flush_units chunks pending separator limit)
  unfolding flush_units
  flush-All chunks [] separator h fits = h
  flush-All chunks (u ∷ pending) separator h fits =
      elim (Bool-cases (ltb (utf16_len chunk) short_chunk)) [
        | inr long ↦ rw long (pushed (Bool-cases (is_empty chunk)))
        | inl short ↦ elim (Option-cases (append_short limit separator chunk chunks)) [
          | inl away ↦ rw (short, away) (pushed (Bool-cases (is_empty chunk)))
          | inr (merged, fits) ↦ rw (short, fits) (append_short-All separator chunk chunks h fits)
        ]
      ]
    where
      chunk : Text
      chunk = trim (join separator (u ∷ pending))

      pushed :
          (is_empty chunk ≡ true) ⊎ (is_empty chunk ≡ false)
          → All (IsChunk limit) (if is_empty chunk then chunks else chunks ++ chunk ∷ [])
      pushed (inl e) = rw e h
      pushed (inr e) = rw e (
          All-append _ chunks (chunk ∷ []) h (
            record {
              filled = filled_of chunk e;
              fits = omega (
                arith,
                trim_le (join separator (u ∷ pending)),
                utf16_len-join separator (u ∷ pending),
              );
            },
            tt,
          ))
