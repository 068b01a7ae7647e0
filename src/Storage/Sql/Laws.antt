-- ===== src/Storage/Sql/Laws.antt =====
-- What the statements do to the rows of a table.
use supermemory_rs.Prelude.{
  ◌+◌, ◌≤◌, Bool, true, false, ◌≡◌, refl, ◌⊎◌, inl, inr, List, [], ◌∷◌, ◌++◌, arith, Bool-cases,
  All,
}
use supermemory_rs.Storage.Sql.{update_where, delete_where, select_where, exists_where, count_where}

-- The row is in the table.
abbrev pub Among : {A : Type 0} → A → List A → Type 0
Among x [] = ⊥
Among x (y ∷ ys) = (y ≡ x) ⊎ Among x ys

pub All-intro {κ} :
    {A : Type 0} (P : A → Type κ) (xs : List A) → ((x : A) → Among x xs → P x) → All P xs
All-intro P [] h = tt
All-intro P (x ∷ xs) h = (h x (inl refl), All-intro P xs (λ y m. h y (inr m)))

module _ {R : Type 0} where
  pub All-update {κ μ} :
      (P : R → Type κ) (Q : R → Type μ) (p : R → Bool) (f : R → R) (rs : List R)
      → ((r : R) → P r → p r ≡ true → Q (f r))
      → ((r : R) → P r → p r ≡ false → Q r)
      → All P rs
      → All Q (update_where p f rs)
  unfolding update_where
  All-update P Q p f [] hit miss h = tt
  All-update P Q p f (r ∷ rs) hit miss h = elim (Bool-cases (p r)) [
    | inl e ↦ (rw e (hit r h.0 e), All-update P Q p f rs hit miss h.1)
    | inr e ↦ (rw e (miss r h.0 e), All-update P Q p f rs hit miss h.1)
  ]

  pub All-delete {κ} :
      (P : R → Type κ) (p : R → Bool) (rs : List R) → All P rs → All P (delete_where p rs)
  unfolding delete_where
  All-delete P p [] h = tt
  All-delete P p (r ∷ rs) h = elim (Bool-cases (p r)) [
    | inl e ↦ rw e (All-delete P p rs h.1)
    | inr e ↦ rw e (h.0, All-delete P p rs h.1)
  ]

  pub All-among {κ} : (P : R → Type κ) (r : R) (rs : List R) → All P rs → Among r rs → P r
  All-among P r [] h m = absurd m
  All-among P r (x ∷ rs) h (inl e) = rw (← e) h.0
  All-among P r (x ∷ rs) h (inr m) = All-among P r rs h.1 m

  -- A condition that no updated row gains holds of no more rows than before.
  pub count-update_le :
      (q p : R → Bool) (f : R → R) (rs : List R)
      → All (λ r. p r ≡ true → q (f r) ≡ true → q r ≡ true) rs
      → count_where q (update_where p f rs) ≤ count_where q rs
  unfolding update_where count_where
  count-update_le q p f [] keep = omega arith
  count-update_le q p f (r ∷ rs) keep = ground (arith, count-update_le q p f rs keep.1, keep.0)

  pub count-delete_le :
      (q p : R → Bool) (rs : List R) → count_where q (delete_where p rs) ≤ count_where q rs
  unfolding delete_where count_where
  count-delete_le q p [] = omega arith
  count-delete_le q p (r ∷ rs) = ground (arith, count-delete_le q p rs)

  pub count-append :
      (q : R → Bool) (xs ys : List R)
      → count_where q (xs ++ ys) ≡ count_where q xs + count_where q ys
  unfolding count_where
  count-append q [] ys = omega arith
  count-append q (x ∷ xs) ys = ground (arith, count-append q xs ys)

  pub count_zero : (q : R → Bool) (rs : List R) → All (λ r. q r ≡ false) rs → count_where q rs ≡ 0
  unfolding count_where
  count_zero q [] h = refl
  count_zero q (r ∷ rs) h = ground (arith, count_zero q rs h.1)

  pub zero-All : (q : R → Bool) (rs : List R) → count_where q rs ≡ 0 → All (λ r. q r ≡ false) rs
  unfolding count_where
  zero-All q [] h = tt
  zero-All q (r ∷ rs) h = (ground arith, zero-All q rs (ground arith))

  -- Where at most one row meets a condition, a row that meets it is the one.
  pub count_one :
      (q : R → Bool) (r : R) (rs : List R)
      → count_where q rs ≤ 1
      → Among r rs
      → q r ≡ true
      → All (λ k. q k ≡ true → k ≡ r) rs
  unfolding count_where
  count_one q r [] h m t = tt
  count_one q r (x ∷ rs) h (inl e) t =
      (λ _. e, others rs (zero-All q rs (ground (arith, let e' : q x ≡ true = rw e t in e'))))
    where
      others : (ks : List R) → All (λ k. q k ≡ false) ks → All (λ k. q k ≡ true → k ≡ r) ks
      others [] h = tt
      others (k ∷ ks) h = (λ e'. cc (h.0, e'), others ks h.1)
  count_one q r (x ∷ rs) h (inr m) t = elim (Bool-cases (q x)) [
    | inl e ↦
        absurd (omega (arith, positive rs m, let e' : count_where q rs ≡ 0 = ground arith in e'))
    | inr e ↦ (λ e'. cc (e, e'), count_one q r rs (ground arith) m t)
  ]
    where
      positive : (ks : List R) → Among r ks → 1 ≤ count_where q ks
      positive [] m = absurd m
      positive (k ∷ ks) (inl e) = ground (arith, let e' : q k ≡ true = rw e t in e')
      positive (k ∷ ks) (inr m) = ground (arith, positive ks m)

  pub exists-false :
      (p : R → Bool) (rs : List R) → exists_where p rs ≡ false → All (λ r. p r ≡ false) rs
  unfolding exists_where
  exists-false p [] h = tt
  exists-false p (r ∷ rs) h = (ground arith, exists-false p rs (ground arith))

  pub All-exists :
      (p : R → Bool) (rs : List R) → All (λ r. p r ≡ false) rs → exists_where p rs ≡ false
  unfolding exists_where
  All-exists p [] h = refl
  All-exists p (r ∷ rs) h = ground (arith, All-exists p rs h.1)

  pub Among-select :
      (p : R → Bool) (r : R) (rs : List R) → Among r (select_where p rs) → Among r rs × (p r ≡ true)
  unfolding select_where
  Among-select p r [] m = absurd m
  Among-select p r (x ∷ rs) m = elim (Bool-cases (p x)) [
    | inl e ↦ kept (Among-select p r rs) e (rw e at m)
    | inr e ↦ let below = Among-select p r rs (rw e at m) in (inr below.0, below.1)
  ]
    where
      kept :
          (Among r (select_where p rs) → Among r rs × (p r ≡ true))
          → p x ≡ true
          → Among r (x ∷ select_where p rs)
          → Among r (x ∷ rs) × (p r ≡ true)
      kept rec e (inl same) = (inl same, rw (← same) e)
      kept rec e (inr m') = let below = rec m' in (inr below.0, below.1)

  pub All-select {κ} :
      (P : R → Type κ) (p : R → Bool) (rs : List R)
      → All P (select_where p rs)
      → All (λ r. p r ≡ true → P r) rs
  unfolding select_where
  All-select P p [] h = tt
  All-select P p (r ∷ rs) h = elim (Bool-cases (p r)) [
    | inl e ↦
        let both : All P (r ∷ select_where p rs) = rw e at h in
        (λ _. both.0, All-select P p rs both.1)
    | inr e ↦ (λ e'. absurd (cc (e, e')), All-select P p rs (rw e at h))
  ]

  pub Among-update :
      (p : R → Bool) (f : R → R) (r : R) (rs : List R)
      → Among r rs
      → p r ≡ true
      → Among (f r) (update_where p f rs)
  unfolding update_where
  Among-update p f r [] m t = m
  Among-update p f r (x ∷ rs) (inl e) t = inl (rw e (rw t))
  Among-update p f r (x ∷ rs) (inr m) t = inr (Among-update p f r rs m t)

  -- A row that the condition spares stays.
  pub Among-update_miss :
      (p : R → Bool) (f : R → R) (r : R) (rs : List R)
      → Among r rs
      → p r ≡ false
      → Among r (update_where p f rs)
  unfolding update_where
  Among-update_miss p f r [] m t = m
  Among-update_miss p f r (x ∷ rs) (inl e) t = inl (rw e (rw t))
  Among-update_miss p f r (x ∷ rs) (inr m) t = inr (Among-update_miss p f r rs m t)

  -- An update that no row meets changes nothing.
  pub update_none :
      (p : R → Bool) (f : R → R) (rs : List R)
      → All (λ r. p r ≡ false) rs
      → update_where p f rs ≡ rs
  unfolding update_where
  update_none p f [] h = refl
  update_none p f (r ∷ rs) h = rw (h.0, update_none p f rs h.1)

  pub positive-Among :
      (q : R → Bool) (rs : List R) → 1 ≤ count_where q rs → (r : R) × Among r rs × (q r ≡ true)
  unfolding count_where
  positive-Among q [] h = elim h [ ]
  positive-Among q (r ∷ rs) h = elim (Bool-cases (q r)) [
    | inl e ↦ (r, inl refl, e)
    | inr e ↦ let (k, m, t) = positive-Among q rs (ground arith) in (k, inr m, t)
  ]

pub Among-exists :
    {A : Type 0} (p : A → Bool) (x : A) (xs : List A)
    → Among x xs
    → p x ≡ true
    → exists_where p xs ≡ true
unfolding exists_where
Among-exists p x [] m hit = absurd m
Among-exists p x (y ∷ ys) (inl same) hit = let e : p y ≡ true = rw same hit in ground arith
Among-exists p x (y ∷ ys) (inr m) hit = ground (arith, Among-exists p x ys m hit)
