-- ===== src/Storage/Sql/Keys.antt =====
-- Tables with a primary key.
use supermemory_rs.Prelude.{
  Text, text_eq, text_eq_iff, Bool, true, false, ◌≡◌, inl, inr, List, [], ◌∷◌, ◌++◌, arith,
  Bool-cases, All, All-append, All-map, ap,
}
use supermemory_rs.Storage.Sql.{update_where, delete_where, count_where}
use supermemory_rs.Storage.Sql.Laws.{Among, All-update, All-among, All-delete, count_zero}

pub All-both {κ μ} :
    {A : Type 0} (P : A → Type κ) (Q : A → Type μ) (xs : List A)
    → All P xs
    → All Q xs
    → All (λ x. P x × Q x) xs
All-both P Q [] h k = tt
All-both P Q (x ∷ xs) h k = ((h.0, k.0), All-both P Q xs h.1 k.1)

-- No two rows have the same key.
abbrev pub Distinct : {R : Type 0} → (R → Text) → List R → Type 0
Distinct key [] = Unit
Distinct key (r ∷ rs) = All (λ k. text_eq (key k) (key r) ≡ false) rs × Distinct key rs

module _ {R : Type 0} (key : R → Text) where
  keys_kept :
      (id : Text) (p : R → Bool) (f : R → R) (rs : List R)
      → ((k : R) → key (f k) ≡ key k)
      → All (λ k. text_eq (key k) id ≡ false) rs
      → All (λ k. text_eq (key k) id ≡ false) (update_where p f rs)
  keys_kept id p f rs same = All-update _ _ p f rs (λ k h _. rw (same k) h) (λ k h _. h)

  pub Distinct-update :
      (p : R → Bool) (f : R → R) (rs : List R)
      → ((k : R) → key (f k) ≡ key k)
      → Distinct key rs
      → Distinct key (update_where p f rs)
  unfolding update_where
  Distinct-update p f [] same h = tt
  Distinct-update p f (r ∷ rs) same h = elim (Bool-cases (p r)) [
    | inl e ↦
        rw e (rw (same r) (keys_kept (key r) p f rs same h.0), Distinct-update p f rs same h.1)
    | inr e ↦ rw e (keys_kept (key r) p f rs same h.0, Distinct-update p f rs same h.1)
  ]

  pub Distinct-delete :
      (p : R → Bool) (rs : List R) → Distinct key rs → Distinct key (delete_where p rs)
  unfolding delete_where
  Distinct-delete p [] h = tt
  Distinct-delete p (r ∷ rs) h = elim (Bool-cases (p r)) [
    | inl e ↦ rw e (Distinct-delete p rs h.1)
    | inr e ↦ rw e (All-delete _ p rs h.0, Distinct-delete p rs h.1)
  ]

  pub Distinct-snoc :
      (rs : List R) (new : R)
      → All (λ k. text_eq (key k) (key new) ≡ false) rs
      → Distinct key rs
      → Distinct key (rs ++ new ∷ [])
  Distinct-snoc [] new fresh h = (tt, tt)
  Distinct-snoc (r ∷ rs) new fresh h = (
    All-append _ rs (new ∷ []) h.0
        (ground (arith, text_eq_iff (key r) (key new), text_eq_iff (key new) (key r)), tt),
    Distinct-snoc rs new fresh.1 h.1,
  )

  -- A row with the key of a row is that row.
  pub Distinct-key :
      (r : R) (rs : List R)
      → Distinct key rs
      → Among r rs
      → All (λ k. text_eq (key k) (key r) ≡ true → k ≡ r) rs
  Distinct-key r [] h m = tt
  Distinct-key r (k ∷ ks) h (inl e) = (λ _. e, All-map _ _ (λ x p q. cc (ap key e, p, q)) ks h.0)
  Distinct-key r (k ∷ ks) h (inr m) = (λ e. absurd (clash e), Distinct-key r ks h.1 m)
    where
      clash : text_eq (key k) (key r) ≡ true → ⊥
      clash e =
          ground (
            arith,
            All-among _ r ks h.0 m,
            text_eq_iff (key k) (key r),
            text_eq_iff (key r) (key k),
          )

  -- A condition on the key of a row that meets it is met by one row.
  pub count_key :
      (p : R → Bool) (r : R) (rs : List R)
      → Distinct key rs
      → Among r rs
      → p r ≡ true
      → ((k : R) → p k ≡ true → text_eq (key k) (key r) ≡ true)
      → count_where p rs ≡ 1
  unfolding count_where
  count_key p r [] h m t alone = absurd m
  count_key p r (k ∷ ks) h (inl e) t alone =
      let hit : p k ≡ true = rw e t in
      ground (arith, hit, count_zero p ks (All-map _ _ (λ x other. missed x other) ks h.0))
    where
      missed : (x : R) → text_eq (key x) (key k) ≡ false → p x ≡ false
      missed x other = elim (Bool-cases (p x)) [
        | inl x_hit ↦ absurd (cc (other, alone x x_hit, ap key e))
        | inr miss ↦ miss
      ]
  count_key p r (k ∷ ks) h (inr m) t alone = elim (Bool-cases (p k)) [
    | inl e ↦ absurd (
        ground (
          arith,
          alone k e,
          All-among _ r ks h.0 m,
          text_eq_iff (key k) (key r),
          text_eq_iff (key r) (key k),
        ))
    | inr e ↦ ground (arith, e, count_key p r ks h.1 m t alone)
  ]
