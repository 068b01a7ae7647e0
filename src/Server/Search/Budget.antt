-- ===== src/Server/Search/Budget.antt =====
-- What fits the context of a response.
use mathlib.Core.Path.{subst}
use supermemory_rs.Prelude.{
  ℕ, ◌-◌, ◌≤◌, ltb, Text, true, false, ◌≡◌, refl, sym, ap, ◌∙◌, ◌⊎◌, inl, inr, List, [], ◌∷◌,
  Option, All, sum, map, arith, Bool-cases,
}
use supermemory_rs.Server.Search.Projection.{
  SearchResult, memory_result, chunk_result, search_context_budget_bytes, max_result_context_bytes,
  reduce_optional_fields, context_bytes, tried, is_omitted, fit_from, fit_search_context,
}

module _ {V F : Type 0} where
  -- What a result says: the id and the text of its fact.
  abbrev pub fact : SearchResult V F → Text × Text
  fact (memory_result r) = (r.id, r.memory)
  fact (chunk_result r) = (r.id, r.chunk)

  -- A result as it was found, or without its optional fields.
  pub record IsWhole (r k : SearchResult V F) : Type 0 where
    pub same_fact : fact k ≡ fact r
    pub form : (k ≡ r) ⊎ (k ≡ reduce_optional_fields r)

  -- The second list leaves results of the first out, keeps the order and the facts.
  pub data Admitted : List (SearchResult V F) → List (SearchResult V F) → Type 0 where
    nothing : Admitted [] []
    omits :
        (r : SearchResult V F) {rs ks : List (SearchResult V F)}
        → Admitted rs ks
        → Admitted (r ∷ rs) ks
    admits :
        {r k : SearchResult V F} {rs ks : List (SearchResult V F)}
        → IsWhole r k
        → Admitted rs ks
        → Admitted (r ∷ rs) (k ∷ ks)

  reduced-fact : (r : SearchResult V F) → fact (reduce_optional_fields r) ≡ fact r
  unfolding reduce_optional_fields
  reduced-fact (memory_result r) = refl
  reduced-fact (chunk_result r) = refl

  module _ (serialized_len : SearchResult V F → Option ℕ) where
    abbrev pub bytes : SearchResult V F → ℕ
    bytes r = context_bytes serialized_len r

    pub record IsFitting (remaining : ℕ) (results fitting : List (SearchResult V F)) : Type 0 where
      pub total : sum (map bytes fitting) ≤ remaining
      pub each : All (λ k. bytes k ≤ 2500) fitting
      pub admitted : Admitted results fitting

    tried-IsWhole :
        (remaining : ℕ) (r : SearchResult V F) → IsWhole r (tried serialized_len remaining r)
    unfolding tried
    tried-IsWhole remaining r = elim (Bool-cases (ltb remaining (context_bytes serialized_len r))) [
      | inl e ↦ rw e (record { same_fact = reduced-fact r; form = inr refl })
      | inr e ↦ rw e (record { same_fact = refl; form = inl refl })
    ]

    fits :
        (remaining : ℕ) (r : SearchResult V F)
        → is_omitted serialized_len remaining r ≡ false
        → (bytes r ≤ remaining) × (bytes r ≤ 2500)
    unfolding is_omitted max_result_context_bytes
    fits remaining r h = (ground arith, ground arith)

    fit_from-omitted :
        (remaining : ℕ) (r : SearchResult V F) (rs : List (SearchResult V F))
        → is_omitted serialized_len remaining (tried serialized_len remaining r) ≡ true
        → fit_from serialized_len remaining (r ∷ rs) ≡ fit_from serialized_len remaining rs
    unfolding fit_from
    fit_from-omitted remaining r rs e = rw e refl

    fit_from-admitted :
        (remaining : ℕ) (r : SearchResult V F) (rs : List (SearchResult V F))
        → is_omitted serialized_len remaining (tried serialized_len remaining r) ≡ false
        → fit_from serialized_len remaining (r ∷ rs)
          ≡ tried serialized_len remaining r
            ∷ fit_from serialized_len (remaining - bytes (tried serialized_len remaining r)) rs
    unfolding fit_from
    fit_from-admitted remaining r rs e = rw e refl

    fit_from-IsFitting :
        (remaining : ℕ) (rs : List (SearchResult V F))
        → IsFitting remaining rs (fit_from serialized_len remaining rs)
    unfolding fit_from
    fit_from-IsFitting remaining [] = record { total = omega arith; each = tt; admitted = nothing }
    fit_from-IsFitting remaining (r ∷ rs) =
        let k = tried serialized_len remaining r in
        elim (Bool-cases (is_omitted serialized_len remaining k)) [
          | inl e ↦
              let h = fit_from-IsFitting remaining rs in
              subst (IsFitting remaining (r ∷ rs)) (sym (fit_from-omitted remaining r rs e))
                (record { total = h.total; each = h.each; admitted = omits r h.admitted })
          | inr e ↦
              let h = fit_from-IsFitting (remaining - bytes k) rs in
              let (small, short) = fits remaining k e in
              subst (IsFitting remaining (r ∷ rs)) (sym (fit_from-admitted remaining r rs e))
                (record {
                  total = omega (arith, small, h.total);
                  each = (short, h.each);
                  admitted = admits (tried-IsWhole remaining r) h.admitted;
                })
        ]

    -- The results of a response take at most 5000 bytes and none more than 2500; they are among those
    -- found, in their order, each with the same fact, whole or without all its optional fields.
    pub fit_search_context-IsFitting :
        (results : List (SearchResult V F))
        → IsFitting 5000 results (fit_search_context serialized_len results)
    unfolding fit_search_context search_context_budget_bytes
    fit_search_context-IsFitting results = fit_from-IsFitting 5000 results

    tried-whole :
        (remaining : ℕ) (r : SearchResult V F)
        → bytes r ≤ remaining
        → tried serialized_len remaining r ≡ r
    unfolding tried
    tried-whole remaining r h =
        let e : ltb remaining (context_bytes serialized_len r) ≡ false = ground (arith, h) in
        rw e refl

    fits_whole :
        (remaining : ℕ) (r : SearchResult V F)
        → bytes r ≤ remaining
        → bytes r ≤ 2500
        → is_omitted serialized_len remaining r ≡ false
    unfolding is_omitted max_result_context_bytes
    fits_whole remaining r small short = ground (arith, small, short)

    fit_from-whole :
        (remaining : ℕ) (rs : List (SearchResult V F))
        → sum (map bytes rs) ≤ remaining
        → All (λ r. bytes r ≤ 2500) rs
        → fit_from serialized_len remaining rs ≡ rs
    unfolding fit_from
    fit_from-whole remaining [] total each = refl
    fit_from-whole remaining (r ∷ rs) total each =
        let small : bytes r ≤ remaining = omega (arith, total) in
        let same = tried-whole remaining r small in
        let e =
          subst (λ k. is_omitted serialized_len remaining k ≡ false) (sym same)
            (fits_whole remaining r small each.0) in
        let rest = fit_from-whole (remaining - bytes r) rs (omega (arith, total)) each.1 in
        fit_from-admitted remaining r rs e
        ∙ subst (λ k. k ∷ fit_from serialized_len (remaining - bytes k) rs ≡ r ∷ rs) (sym same)
            (ap (λ ks. r ∷ ks) rest)

    -- Results that fit the budget together, none of more than half of it, are all returned as they are.
    pub fit_search_context-whole :
        (results : List (SearchResult V F))
        → sum (map bytes results) ≤ 5000
        → All (λ r. bytes r ≤ 2500) results
        → fit_search_context serialized_len results ≡ results
    unfolding fit_search_context search_context_budget_bytes
    fit_search_context-whole results total each = fit_from-whole 5000 results total each
