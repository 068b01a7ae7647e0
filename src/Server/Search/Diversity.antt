-- ===== src/Server/Search/Diversity.antt =====
-- What `select_diverse` selects.
use mathlib.Core.Path.{subst}
use supermemory_rs.Prelude.{
  ℕ, zero, suc, ◌≤◌, Text, text_eq, text_eq_iff, true, false, ◌≡◌, refl, sym, ap, ◌⊎◌, inl, inr,
  List, [], ◌∷◌, Option, none, some, take, length, All, All-map, arith, Bool-cases,
}
use supermemory_rs.Storage.Sql.Laws.{Among}
use supermemory_rs.Server.Search.Ranked.{
  RankedCandidate, of_memory, of_chunk, candidate_document, is_represented, with_document,
  select_from, select_diverse,
}

-- The second list leaves elements of the first out and keeps the order.
pub data Picked {A : Type 0} : List A → List A → Type 0 where
  nothing : Picked [] []
  leaves : {x : A} {xs ys : List A} → Picked xs ys → Picked (x ∷ xs) ys
  keeps : {x : A} {xs ys : List A} → Picked xs ys → Picked (x ∷ xs) (x ∷ ys)

pub Picked-none : {A : Type 0} (xs : List A) → Picked xs []
Picked-none [] = nothing
Picked-none (x ∷ xs) = leaves (Picked-none xs)

narrow_represented :
    (d e : Option Text) (documents : List Text)
    → is_represented d (with_document e documents) ≡ false
    → (is_represented d documents ≡ false) × (is_represented d (with_document e []) ≡ false)
unfolding is_represented with_document
narrow_represented none none documents h = (refl, refl)
narrow_represented none (some x) documents h = (refl, refl)
narrow_represented (some d) none documents h = (h, refl)
narrow_represented (some d) (some x) documents h = (ground arith, ground arith)

not_represented : (d : Option Text) → is_represented d [] ≡ true → ⊥
unfolding is_represented
not_represented none h = cc h
not_represented (some d) h = cc h

module _ {F : Type 0} where
  -- Both are chunks, and of one document.
  abbrev pub OfOneDocument : RankedCandidate F → RankedCandidate F → Type 0
  OfOneDocument (of_chunk c) (of_chunk d) = c.document_id ≡ d.document_id
  OfOneDocument (of_chunk c) (of_memory m) = ⊥
  OfOneDocument (of_memory m) (of_chunk c) = ⊥
  OfOneDocument (of_memory m) (of_memory n) = ⊥

  -- No two are chunks of the same document.
  abbrev pub OnePerDocument : List (RankedCandidate F) → Type 0
  OnePerDocument [] = Unit
  OnePerDocument (c ∷ cs) = All (λ k. OfOneDocument c k → ⊥) cs × OnePerDocument cs

  -- A candidate that is selected, or a chunk of a document that has a chunk selected.
  abbrev pub IsCovered : List (RankedCandidate F) → RankedCandidate F → Type 0
  IsCovered selected c =
      Among c selected ⊎ ((s : RankedCandidate F) × Among s selected × OfOneDocument s c)

  apart-OfOneDocument :
      (c k : RankedCandidate F)
      → is_represented (candidate_document k) (with_document (candidate_document c) []) ≡ false
      → OfOneDocument c k
      → ⊥
  unfolding is_represented with_document candidate_document
  apart-OfOneDocument (of_chunk c) (of_chunk d) h same =
      absurd (cc ((text_eq_iff c.document_id d.document_id).1 same, apart))
    where
      apart : text_eq c.document_id d.document_id ≡ false
      apart = ground arith
  apart-OfOneDocument (of_chunk c) (of_memory m) h same = same
  apart-OfOneDocument (of_memory m) (of_chunk c) h same = same
  apart-OfOneDocument (of_memory m) (of_memory n) h same = same

  pub record IsDiverse (candidates : List (RankedCandidate F)) (limit : ℕ)
      (selected : List (RankedCandidate F)) : Type 0 where
    pub short : length selected ≤ limit
    pub picked : Picked candidates selected
    pub apart : OnePerDocument selected
    pub complete : (length selected ≡ limit) ⊎ All (IsCovered selected) candidates

  represented-OfOneDocument :
      (c k : RankedCandidate F) (documents : List Text)
      → is_represented (candidate_document k) (with_document (candidate_document c) documents)
        ≡ true
      → OfOneDocument c k ⊎ (is_represented (candidate_document k) documents ≡ true)
  unfolding is_represented with_document candidate_document
  represented-OfOneDocument (of_memory m) k documents h = inr h
  represented-OfOneDocument (of_chunk c) (of_memory m) documents h = inr h
  represented-OfOneDocument (of_chunk c) (of_chunk d) documents h =
      elim (Bool-cases (text_eq c.document_id d.document_id)) [
        | inl e ↦ inl ((text_eq_iff c.document_id d.document_id).0 e)
        | inr e ↦ inr (ground arith)
      ]

  aggregated :
      (n : ℕ) (documents : List Text) (c : RankedCandidate F) (cs : List (RankedCandidate F))
      → is_represented (candidate_document c) documents ≡ true
      → select_from (suc n) true documents (c ∷ cs) ≡ select_from (suc n) true documents cs
  unfolding select_from
  aggregated n documents c cs e = rw e refl

  admitted :
      (n : ℕ) (documents : List Text) (c : RankedCandidate F) (cs : List (RankedCandidate F))
      → is_represented (candidate_document c) documents ≡ false
      → select_from (suc n) true documents (c ∷ cs)
        ≡ c ∷ select_from n true (with_document (candidate_document c) documents) cs
  unfolding select_from
  admitted n documents c cs e = rw e refl

  module _ (P : (selected : List (RankedCandidate F)) → Type 0) where
    -- The two cases of a round.
    by_round :
        (n : ℕ) (documents : List Text) (c : RankedCandidate F) (cs : List (RankedCandidate F))
        → (is_represented (candidate_document c) documents ≡ true
            → P (select_from (suc n) true documents cs))
        → (is_represented (candidate_document c) documents ≡ false
            → P (c ∷ select_from n true (with_document (candidate_document c) documents) cs))
        → P (select_from (suc n) true documents (c ∷ cs))
    by_round n documents c cs skip keep =
        elim (Bool-cases (is_represented (candidate_document c) documents)) [
          | inl e ↦ subst P (sym (aggregated n documents c cs e)) (skip e)
          | inr e ↦ subst P (sym (admitted n documents c cs e)) (keep e)
        ]

  selected-unrepresented :
      (n : ℕ) (documents : List Text) (cs : List (RankedCandidate F))
      → All
          (λ k. is_represented (candidate_document k) documents ≡ false)
          (select_from n true documents cs)
  unfolding select_from
  selected-unrepresented n documents [] = tt
  selected-unrepresented zero documents (c ∷ cs) = tt
  selected-unrepresented (suc n) documents (c ∷ cs) =
      by_round (All (λ k. is_represented (candidate_document k) documents ≡ false)) n documents c cs
        (λ _. selected-unrepresented (suc n) documents cs)
        (λ e. (
          e,
          All-map _ _
              (λ k h.
                (narrow_represented (candidate_document k) (candidate_document c) documents h).0)
              _ (selected-unrepresented n (with_document (candidate_document c) documents) cs),
        ))

  selected-Picked :
      (n : ℕ) (documents : List Text) (cs : List (RankedCandidate F))
      → Picked cs (select_from n true documents cs)
  unfolding select_from
  selected-Picked n documents [] = nothing
  selected-Picked zero documents (c ∷ cs) = Picked-none (c ∷ cs)
  selected-Picked (suc n) documents (c ∷ cs) =
      by_round (Picked (c ∷ cs)) n documents c cs
        (λ _. leaves (selected-Picked (suc n) documents cs))
        (λ _. keeps (selected-Picked n (with_document (candidate_document c) documents) cs))

  selected-length_le :
      (n : ℕ) (documents : List Text) (cs : List (RankedCandidate F))
      → length (select_from n true documents cs) ≤ n
  unfolding select_from
  selected-length_le n documents [] = omega arith
  selected-length_le zero documents (c ∷ cs) = omega arith
  selected-length_le (suc n) documents (c ∷ cs) =
      by_round (λ s. length s ≤ suc n) n documents c cs
        (λ _. selected-length_le (suc n) documents cs)
        (λ _.
          omega (arith, selected-length_le n (with_document (candidate_document c) documents) cs))

  selected-OnePerDocument :
      (n : ℕ) (documents : List Text) (cs : List (RankedCandidate F))
      → OnePerDocument (select_from n true documents cs)
  unfolding select_from
  selected-OnePerDocument n documents [] = tt
  selected-OnePerDocument zero documents (c ∷ cs) = tt
  selected-OnePerDocument (suc n) documents (c ∷ cs) =
      let grown = with_document (candidate_document c) documents in
      by_round OnePerDocument n documents c cs (λ _. selected-OnePerDocument (suc n) documents cs)
        (λ _. (
          All-map _ _
              (λ k h.
                apart-OfOneDocument c k
                  (narrow_represented (candidate_document k) (candidate_document c) documents h).1)
              _ (selected-unrepresented n grown cs),
          selected-OnePerDocument n grown cs,
        ))

  abbrev Reached : ℕ → List Text → List (RankedCandidate F) → List (RankedCandidate F) → Type 0
  Reached n documents candidates selected =
      (length selected ≡ n)
      ⊎ All (λ c. IsCovered selected c ⊎ (is_represented (candidate_document c) documents ≡ true))
          candidates

  selected-Reached :
      (n : ℕ) (documents : List Text) (cs : List (RankedCandidate F))
      → Reached n documents cs (select_from n true documents cs)
  unfolding select_from
  selected-Reached n documents [] = inr tt
  selected-Reached zero documents (c ∷ cs) = inl refl
  selected-Reached (suc n) documents (c ∷ cs) =
      let grown = with_document (candidate_document c) documents in
      by_round (Reached (suc n) documents (c ∷ cs)) n documents c cs
        (λ e. elim (selected-Reached (suc n) documents cs) [
          | inl full ↦ inl full
          | inr rest ↦ inr (inr e, rest)
        ])
        (λ e. elim (selected-Reached n grown cs) [
          | inl full ↦ inl (omega (arith, full))
          | inr rest ↦ inr (inl (inl (inl refl)), All-map _ _ widen cs rest)
        ])
    where
      widen :
          (k : RankedCandidate F)
          → IsCovered (select_from n true (with_document (candidate_document c) documents) cs) k
            ⊎ (is_represented
                  (candidate_document k)
                  (with_document (candidate_document c) documents)
                ≡ true)
          → IsCovered (c ∷ select_from n true (with_document (candidate_document c) documents) cs) k
            ⊎ (is_represented (candidate_document k) documents ≡ true)
      widen k (inl (inl m)) = inl (inl (inr m))
      widen k (inl (inr (s, m, same))) = inl (inr (s, inr m, same))
      widen k (inr e) = elim (represented-OfOneDocument c k documents e) [
        | inl same ↦ inl (inr (c, inl refl, same))
        | inr old ↦ inr old
      ]

  -- With one chunk for each document asked for, at most `limit` candidates are selected, in their order
  -- and no two of one document; unless the limit is reached, every candidate is selected or is a chunk
  -- of a document that has a chunk selected.
  pub select_diverse-IsDiverse :
      (candidates : List (RankedCandidate F)) (limit : ℕ)
      → IsDiverse candidates limit (select_diverse candidates limit true)
  unfolding select_diverse
  select_diverse-IsDiverse candidates limit = record {
    short = selected-length_le limit [] candidates;
    picked = selected-Picked limit [] candidates;
    apart = selected-OnePerDocument limit [] candidates;
    complete = elim (selected-Reached limit [] candidates) [
      | inl full ↦ inl full
      | inr rest ↦ inr (
          All-map _ _
            (λ c h. elim h [
              | inl covered ↦ covered
              | inr e ↦ absurd (not_represented (candidate_document c) e)
            ])
            candidates rest)
    ];
  }

  select_from-take :
      (n : ℕ) (documents : List Text) (cs : List (RankedCandidate F))
      → select_from n false documents cs ≡ take n cs
  unfolding select_from
  select_from-take zero documents [] = refl
  select_from-take (suc n) documents [] = refl
  select_from-take zero documents (c ∷ cs) = refl
  select_from-take (suc n) documents (c ∷ cs) =
      ap (λ rest. c ∷ rest) (select_from-take n (with_document (candidate_document c) documents) cs)

  -- With several chunks for a document allowed, the selection is the first `limit` candidates, of
  -- whatever documents they are.
  pub select_diverse-take :
      (candidates : List (RankedCandidate F)) (limit : ℕ)
      → select_diverse candidates limit false ≡ take limit candidates
  unfolding select_diverse
  select_diverse-take candidates limit = select_from-take limit [] candidates
