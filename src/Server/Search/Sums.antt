-- ===== src/Server/Search/Sums.antt =====
-- The map of `fuse_candidates` in crates/server/src/search_engine.rs, as it grows.
use mathlib.Core.Path.{subst}
use supermemory_rs.Prelude.{
  ℕ, Text, text_eq, text_eq_iff, true, false, ◌≡◌, refl, sym, ap, ◌∙◌, inl, inr, List, [], ◌∷◌,
  Option, none, some, All, arith, Bool-cases, if◌then◌else◌,
}
use supermemory_rs.Storage.Sql.Keys.{Distinct}
use supermemory_rs.Server.Search.Ranked.{
  Float64, RankedCandidate, of_memory, of_chunk, candidate_id, with_score, Fused, add_evidence,
  add_all, into_values,
}

module _ (f : Float64) where
  abbrev pub Entry : Type 0
  Entry = RankedCandidate f.F × f.F

  -- The candidate and the score of an id.
  unfoldable pub score_of : Text → Fused f → Option Entry
  score_of id [] = none
  score_of id ((key, candidate, total) ∷ fused) =
      let rest = score_of id fused in if text_eq key id then some (candidate, total) else rest

  -- What the evidence for one id comes to: the first candidate, and the sum of the evidence in order.
  abbrev pub evidence_for : Option Entry → RankedCandidate f.F → ℕ → Option Entry
  evidence_for none candidate rank = some (candidate, f.evidence rank)
  evidence_for (some (first, total)) candidate rank = some (first, f.add total (f.evidence rank))

  unfoldable pub accumulated : Text → Option Entry → List (RankedCandidate f.F × ℕ) → Option Entry
  accumulated id found [] = found
  accumulated id found ((candidate, rank) ∷ pairs) =
      if text_eq (candidate_id candidate) id
      then accumulated id (evidence_for found candidate rank) pairs
      else accumulated id found pairs

  score_of-add_evidence :
      (id : Text) (candidate : RankedCandidate f.F) (rank : ℕ) (fused : Fused f)
      → score_of id (add_evidence f candidate rank fused) ≡ (
          if text_eq (candidate_id candidate) id
          then evidence_for (score_of id fused) candidate rank
          else score_of id fused)
  unfolding score_of add_evidence
  score_of-add_evidence id candidate rank [] = refl
  score_of-add_evidence id candidate rank ((key, first, total) ∷ fused) =
      elim (Bool-cases (text_eq key (candidate_id candidate))) [
        | inl same ↦
            let e : key ≡ candidate_id candidate =
              (text_eq_iff key (candidate_id candidate)).0 same in
            elim (Bool-cases (text_eq (candidate_id candidate) id)) [
              | inl hit ↦
                  let hit' : text_eq key id ≡ true = subst (λ k. text_eq k id ≡ true) (sym e) hit in
                  rw (same, hit, hit') refl
              | inr miss ↦
                  let miss' : text_eq key id ≡ false =
                    subst (λ k. text_eq k id ≡ false) (sym e) miss in
                  rw (same, miss, miss') refl
            ]
        | inr other ↦
            let rest = score_of-add_evidence id candidate rank fused in
            elim (Bool-cases (text_eq key id)) [
              | inl hit ↦
                  let miss : text_eq (candidate_id candidate) id ≡ false = apart key hit other in
                  rw (other, hit, miss) refl
              | inr away ↦ rw (other, away) rest
            ]
      ]
    where
      apart :
          (k : Text)
          → text_eq k id ≡ true
          → text_eq k (candidate_id candidate) ≡ false
          → text_eq (candidate_id candidate) id ≡ false
      apart k hit other = ground (
        arith,
        hit,
        other,
        text_eq_iff k id,
        text_eq_iff k (candidate_id candidate),
        text_eq_iff (candidate_id candidate) id,
      )

  pub score_of-add_all :
      (id : Text) (pairs : List (RankedCandidate f.F × ℕ)) (fused : Fused f)
      → score_of id (add_all f pairs fused) ≡ accumulated id (score_of id fused) pairs
  unfolding add_all accumulated
  score_of-add_all id [] fused = refl
  score_of-add_all id ((candidate, rank) ∷ pairs) fused =
      let below = score_of-add_all id pairs (add_evidence f candidate rank fused) in
      let step = score_of-add_evidence id candidate rank fused in
      elim (Bool-cases (text_eq (candidate_id candidate) id)) [
        | inl hit ↦
            let now : score_of id (add_evidence f candidate rank fused)
                ≡ evidence_for (score_of id fused) candidate rank =
              rw hit at step in
            rw hit (below ∙ ap (λ found. accumulated id found pairs) now)
        | inr miss ↦
            let now : score_of id (add_evidence f candidate rank fused) ≡ score_of id fused =
              rw miss at step in
            rw miss (below ∙ ap (λ found. accumulated id found pairs) now)
      ]

  -- Each entry stands under the id of its candidate.
  abbrev pub IsKeyed : Fused f → Type 0
  IsKeyed fused = All (λ e. e.0 ≡ candidate_id e.1) fused

  add_evidence-IsKeyed :
      (candidate : RankedCandidate f.F) (rank : ℕ) (fused : Fused f)
      → IsKeyed fused
      → IsKeyed (add_evidence f candidate rank fused)
  unfolding add_evidence
  add_evidence-IsKeyed candidate rank [] h = (refl, tt)
  add_evidence-IsKeyed candidate rank ((key, first, total) ∷ fused) h =
      elim (Bool-cases (text_eq key (candidate_id candidate))) [
        | inl same ↦ rw same h
        | inr other ↦ rw other (h.0, add_evidence-IsKeyed candidate rank fused h.1)
      ]

  add_evidence-apart :
      (candidate : RankedCandidate f.F) (rank : ℕ) (key : Text) (fused : Fused f)
      → text_eq key (candidate_id candidate) ≡ false
      → All (λ e. text_eq e.0 key ≡ false) fused
      → All (λ e. text_eq e.0 key ≡ false) (add_evidence f candidate rank fused)
  unfolding add_evidence
  add_evidence-apart candidate rank key [] other h = (
    ground (
      arith,
      other,
      text_eq_iff key (candidate_id candidate),
      text_eq_iff (candidate_id candidate) key,
    ),
    tt,
  )
  add_evidence-apart candidate rank key ((k, first, total) ∷ fused) other h =
      elim (Bool-cases (text_eq k (candidate_id candidate))) [
        | inl same ↦ rw same h
        | inr e ↦ rw e (h.0, add_evidence-apart candidate rank key fused other h.1)
      ]

  add_evidence-Distinct :
      (candidate : RankedCandidate f.F) (rank : ℕ) (fused : Fused f)
      → Distinct (λ e. e.0) fused
      → Distinct (λ e. e.0) (add_evidence f candidate rank fused)
  unfolding add_evidence
  add_evidence-Distinct candidate rank [] h = (tt, tt)
  add_evidence-Distinct candidate rank ((key, first, total) ∷ fused) h =
      elim (Bool-cases (text_eq key (candidate_id candidate))) [
        | inl same ↦ rw same h
        | inr other ↦ rw other (
          add_evidence-apart candidate rank key fused other h.0,
          add_evidence-Distinct candidate rank fused h.1,
        )
      ]

  pub add_all-IsKeyed :
      (pairs : List (RankedCandidate f.F × ℕ)) (fused : Fused f)
      → IsKeyed fused
      → Distinct (λ e. e.0) fused
      → IsKeyed (add_all f pairs fused) × Distinct (λ e. e.0) (add_all f pairs fused)
  unfolding add_all
  add_all-IsKeyed [] fused h d = (h, d)
  add_all-IsKeyed ((candidate, rank) ∷ pairs) fused h d =
      add_all-IsKeyed pairs (add_evidence f candidate rank fused)
        (add_evidence-IsKeyed candidate rank fused h) (add_evidence-Distinct candidate rank fused d)

  -- The candidate of an id.
  unfoldable pub candidate_with : Text → List (RankedCandidate f.F) → Option (RankedCandidate f.F)
  candidate_with id [] = none
  candidate_with id (c ∷ cs) =
      let rest = candidate_with id cs in if text_eq (candidate_id c) id then some c else rest

  abbrev pub scored : Option Entry → Option (RankedCandidate f.F)
  scored none = none
  scored (some (of_memory m, score)) = some (of_memory (record m { semantic_score = some score }))
  scored (some (of_chunk c, score)) = some (of_chunk (record c { semantic_score = some score }))

  scored-with_score :
      (score : f.F) (c : RankedCandidate f.F) → some (with_score score c) ≡ scored (some (c, score))
  unfolding with_score
  scored-with_score score (of_memory m) = refl
  scored-with_score score (of_chunk c) = refl

  with_score-id :
      (score : f.F) (c : RankedCandidate f.F) → candidate_id (with_score score c) ≡ candidate_id c
  unfolding with_score candidate_id
  with_score-id score (of_memory m) = refl
  with_score-id score (of_chunk c) = refl

  pub candidate_with-into_values :
      (id : Text) (fused : Fused f)
      → IsKeyed fused
      → candidate_with id (into_values f fused) ≡ scored (score_of id fused)
  unfolding candidate_with into_values score_of
  candidate_with-into_values id [] h = refl
  candidate_with-into_values id ((key, candidate, score) ∷ fused) h =
      let same : candidate_id (with_score score candidate) ≡ key =
        with_score-id score candidate ∙ sym h.0 in
      let rest = candidate_with-into_values id fused h.1 in
      elim (Bool-cases (text_eq key id)) [
        | inl hit ↦
            let hit' = subst (λ k. text_eq k id ≡ true) (sym same) hit in
            rw (hit, hit') (scored-with_score score candidate)
        | inr miss ↦
            let miss' = subst (λ k. text_eq k id ≡ false) (sym same) miss in rw (miss, miss') rest
      ]

  pub into_values-Distinct :
      (fused : Fused f)
      → IsKeyed fused
      → Distinct (λ e. e.0) fused
      → Distinct candidate_id (into_values f fused)
  unfolding into_values
  into_values-Distinct [] h d = tt
  into_values-Distinct ((key, candidate, score) ∷ fused) h d =
      (apart fused h.1 d.0, into_values-Distinct fused h.1 d.1)
    where
      same : key ≡ candidate_id (with_score score candidate)
      same = h.0 ∙ sym (with_score-id score candidate)

      apart :
          (es : Fused f)
          → IsKeyed es
          → All (λ e. text_eq e.0 key ≡ false) es
          → All
              (λ c. text_eq (candidate_id c) (candidate_id (with_score score candidate)) ≡ false)
              (into_values f es)
      apart [] k a = tt
      apart ((other, c, s) ∷ es) k a = (
        subst (λ x. text_eq (candidate_id (with_score s c)) x ≡ false) same
            (subst (λ x. text_eq x key ≡ false) (k.0 ∙ sym (with_score-id s c)) a.0),
        apart es k.1 a.1,
      )
