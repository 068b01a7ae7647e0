-- ===== src/MemoryEngine/Chunking/Words.antt =====
-- Words hold no white space, so that a word is not split again.
use supermemory_rs.Prelude.{
  ℕ, ◌≤◌, Text, false, ◌≡◌, refl, inl, inr, List, [], ◌∷◌, is_empty, is_whitespace, length,
  before_first, split_at_whitespace, nonempty, split_whitespace, All, arith, Bool-cases,
}

abbrev pub IsWord : Text → Type 0
IsWord t = All (λ c. is_whitespace c ≡ false) t

before_first-IsWord :
    (c : ℕ) (ps : List Text)
    → is_whitespace c ≡ false
    → All IsWord ps
    → All IsWord (before_first c ps)
unfolding before_first
before_first-IsWord c [] e h = ((e, tt), tt)
before_first-IsWord c (p ∷ ps) e h = ((e, h.0), h.1)

split_at_whitespace-IsWord : (t : Text) → All IsWord (split_at_whitespace t)
unfolding split_at_whitespace
split_at_whitespace-IsWord [] = (tt, tt)
split_at_whitespace-IsWord (c ∷ t) = elim (Bool-cases (is_whitespace c)) [
  | inl e ↦ rw e (tt, split_at_whitespace-IsWord t)
  | inr e ↦ rw e (before_first-IsWord c (split_at_whitespace t) e (split_at_whitespace-IsWord t))
]

nonempty-IsWord : (ps : List Text) → All IsWord ps → All IsWord (nonempty ps)
unfolding nonempty
nonempty-IsWord [] h = tt
nonempty-IsWord (p ∷ ps) h = elim (Bool-cases (is_empty p)) [
  | inl e ↦ rw e (nonempty-IsWord ps h.1)
  | inr e ↦ rw e (h.0, nonempty-IsWord ps h.1)
]

pub split_whitespace-IsWord : (t : Text) → All IsWord (split_whitespace t)
unfolding split_whitespace
split_whitespace-IsWord t = nonempty-IsWord (split_at_whitespace t) (split_at_whitespace-IsWord t)

whole : (w : Text) → IsWord w → split_at_whitespace w ≡ w ∷ []
unfolding split_at_whitespace before_first
whole [] h = refl
whole (c ∷ w) h = rw (h.0, whole w h.1)

pub length-split_whitespace : (w : Text) → IsWord w → length (split_whitespace w) ≤ 1
unfolding split_whitespace nonempty
length-split_whitespace w h = rw (whole w h) (ground arith)
