-- ===== src/MemoryEngine/Chunking/Sections.antt =====
-- Text that holds more than white space has a section.
use supermemory_rs.Prelude.{
  ℕ, Text, Bool, true, false, not, ◌&&◌, ◌||◌, ◌≡◌, ◌∙◌, ap, refl, ◌⊎◌, inl, inr, List, [], ◌∷◌,
  ◌++◌, ◌==◌, ==_iff, trim, trim_start, trim_end, is_empty, is_whitespace, join, before_first,
  split, arith, Bool-cases,
}
use supermemory_rs.MemoryEngine.Chunking.Plain.{push_trimmed}
use supermemory_rs.MemoryEngine.Chunking.Markdown.{
  is_fence, is_heading, close_section, section_loop, markdown_sections,
}

-- A character that is no white space.
abbrev pub inked : Text → Bool
inked [] = false
inked (c ∷ t) = not (is_whitespace c) || inked t

abbrev pub any_inked : List Text → Bool
any_inked [] = false
any_inked (l ∷ ls) = inked l || any_inked ls

cons_cases {ℓ} :
    {A : Type ℓ} (xs : List A) → (xs ≡ []) ⊎ ((x : A) × (rest : List A) × (xs ≡ x ∷ rest))
cons_cases [] = inl refl
cons_cases (x ∷ xs) = inr (x, xs, refl)

trim_end-inked : (t : Text) → is_empty (trim_end t) ≡ not (inked t)
unfolding trim_end
trim_end-inked [] = refl
trim_end-inked (c ∷ t) = elim (cons_cases (trim_end t)) [
  | inl e ↦
      let blank : inked t ≡ false = ground (arith, trim_end-inked t) in
      elim (Bool-cases (is_whitespace c)) [ inl w ↦ rw (e, w, blank) refl | inr w ↦ rw (e, w) refl ]
  | inr (d, rest, e) ↦
      let ink : inked t ≡ true = ground (arith, trim_end-inked t) in
      elim (Bool-cases (is_whitespace c)) [ inl w ↦ rw (e, w, ink) refl | inr w ↦ rw (e, w) refl ]
]

trim_start-inked : (t : Text) → inked (trim_start t) ≡ inked t
unfolding trim_start
trim_start-inked [] = refl
trim_start-inked (c ∷ t) = elim (Bool-cases (is_whitespace c)) [
  | inl w ↦ rw (w, trim_start-inked t) refl
  | inr w ↦ rw (trim_start, w) (rw w refl)
]

pub trim-inked : (t : Text) → is_empty (trim t) ≡ not (inked t)
unfolding trim
trim-inked t = trim_end-inked (trim_start t) ∙ ap not (trim_start-inked t)

inked-append : (x y : Text) → inked (x ++ y) ≡ inked x || inked y
inked-append [] y = refl
inked-append (c ∷ x) y = ground (arith, inked-append x y)

any_inked-append : (x y : List Text) → any_inked (x ++ y) ≡ any_inked x || any_inked y
any_inked-append [] y = refl
any_inked-append (l ∷ x) y = ground (arith, any_inked-append x y)

join-inked :
    (separator : Text) (ls : List Text) → any_inked ls ≡ true → inked (join separator ls) ≡ true
unfolding join
join-inked separator [] h = h
join-inked separator (l ∷ []) h = ground arith
join-inked separator (l ∷ m ∷ ls) h = ground (
  arith,
  inked-append (l ++ separator) (join separator (m ∷ ls)),
  inked-append l separator,
  join-inked separator (m ∷ ls),
)

before_first-inked :
    (c : ℕ) (ps : List Text) → any_inked (before_first c ps) ≡ not (is_whitespace c) || any_inked ps
unfolding before_first
before_first-inked c [] = ground arith
before_first-inked c (p ∷ ps) = ground arith

pub split-inked :
    (separator : ℕ) (t : Text)
    → is_whitespace separator ≡ true
    → any_inked (split separator t) ≡ inked t
unfolding split
split-inked separator [] blank = refl
split-inked separator (c ∷ t) blank = elim (Bool-cases (c == separator)) [
  | inl e ↦
      let same : c ≡ separator = (==_iff c separator).0 e in
      let space : is_whitespace c ≡ true = ap is_whitespace same ∙ blank in
      rw (e, space, split-inked separator t blank) refl
  | inr e ↦ rw (e, before_first-inked c (split separator t), split-inked separator t blank) refl
]

push_trimmed-kept :
    (target : List Text) (value : Text)
    → is_empty target ≡ false
    → is_empty (push_trimmed target value) ≡ false
unfolding push_trimmed
push_trimmed-kept [] value h = absurd (ground arith)
push_trimmed-kept (t ∷ target) value h = elim (Bool-cases (is_empty (trim value))) [
  | inl e ↦ rw e refl
  | inr e ↦ rw e refl
]

close_section-kept :
    (sections current : List Text)
    → is_empty sections ≡ false
    → is_empty (close_section sections current) ≡ false
unfolding close_section
close_section-kept sections [] h = h
close_section-kept sections (l ∷ current) h =
    push_trimmed-kept sections (join (0x0a ∷ []) (l ∷ current)) h

close_section-inked :
    (sections current : List Text)
    → any_inked current ≡ true
    → is_empty (close_section sections current) ≡ false
unfolding close_section push_trimmed
close_section-inked sections [] h = absurd (ground arith)
close_section-inked [] (l ∷ current) h =
    rw (trim-inked (join (0x0a ∷ []) (l ∷ current)), join-inked (0x0a ∷ []) (l ∷ current) h) refl
close_section-inked (s ∷ sections) (l ∷ current) h =
    push_trimmed-kept (s ∷ sections) (join (0x0a ∷ []) (l ∷ current)) refl

section_loop-kept :
    (ls : List Text) (fenced : Bool) (current sections : List Text)
    → is_empty sections ≡ false
    → is_empty (section_loop ls fenced current sections) ≡ false
unfolding section_loop
section_loop-kept [] fenced current sections h = close_section-kept sections current h
section_loop-kept (l ∷ ls) fenced current sections h =
    section_loop-kept ls _ _ _ (elim (Bool-cases (not (is_fence l) && not fenced && is_heading l)) [
      | inl e ↦ rw e (close_section-kept sections current h)
      | inr e ↦ rw e h
    ])

section_loop-inked :
    (ls : List Text) (fenced : Bool) (current sections : List Text)
    → (any_inked current || any_inked ls) ≡ true
    → is_empty (section_loop ls fenced current sections) ≡ false
unfolding section_loop
section_loop-inked [] fenced current sections h =
    close_section-inked sections current (ground arith)
section_loop-inked (l ∷ ls) fenced current sections h =
    elim (Bool-cases (not (is_fence l) && not fenced && is_heading l)) [
      | inl e ↦ elim (Bool-cases (any_inked current)) [
        | inl ink ↦ rw e (section_loop-kept ls _ _ _ (close_section-inked sections current ink))
        | inr blank ↦ rw e (section_loop-inked ls _ (l ∷ []) _ (ground arith))
      ]
      | inr e ↦ rw e (
          section_loop-inked ls _ (current ++ l ∷ []) sections
            (ground (arith, any_inked-append current (l ∷ []))))
    ]

-- Text that does not trim to nothing has sections.
pub markdown_sections-filled :
    (text : Text) → is_empty (trim text) ≡ false → is_empty (markdown_sections text) ≡ false
unfolding markdown_sections
markdown_sections-filled text h =
    section_loop-inked (split 0x0a text) false [] []
      (split-inked 0x0a text (unfold is_whitespace in refl) ∙ ground (arith, trim-inked text))
