-- ===== src/Storage/Sql/Order.antt =====
-- ORDER BY … LIMIT: the rows in order, and the first of them. `before` is the strict order of the
-- columns, in which two rows may tie.
use supermemory_rs.Prelude.{
  ℕ, zero, suc, Bool, true, false, ◌≡◌, refl, ap, ◌⊎◌, inl, inr, List, [], ◌∷◌, All, All-map, take,
  length, Text, text_lt, arith, Bool-cases,
}
use supermemory_rs.Storage.Sql.{insert_by, order_by}
use supermemory_rs.Storage.Sql.Laws.{Among, All-among, All-intro}

pub All-insert_by {κ} :
    {R : Type 0} (P : R → Type κ) (before : R → R → Bool) (r : R) (rs : List R)
    → P r
    → All P rs
    → All P (insert_by before r rs)
unfolding insert_by
All-insert_by P before r [] h hs = (h, tt)
All-insert_by P before r (k ∷ ks) h hs = elim (Bool-cases (before k r)) [
  | inl e ↦ rw e (hs.0, All-insert_by P before r ks h hs.1)
  | inr e ↦ rw e (h, hs)
]

pub All-order_by {κ} :
    {R : Type 0} (P : R → Type κ) (before : R → R → Bool) (rs : List R)
    → All P rs
    → All P (order_by before rs)
unfolding order_by
All-order_by P before [] h = tt
All-order_by P before (r ∷ rs) h =
    All-insert_by P before r (order_by before rs) h.0 (All-order_by P before rs h.1)

-- The columns order the rows: no two are before each other, and a row that is before another is
-- before each third row or has it after the third.
pub record IsOrder {R : Type 0} (before : R → R → Bool) : Type 0 where
  pub asymmetric : (a b : R) → before a b ≡ true → before b a ≡ false
  pub between : (a b c : R) → before a c ≡ true → (before a b ≡ true) ⊎ (before b c ≡ true)

-- No row comes before one that stands in front of it.
abbrev pub IsOrdered : {R : Type 0} → (R → R → Bool) → List R → Type 0
IsOrdered before [] = Unit
IsOrdered before (r ∷ rs) = All (λ k. before k r ≡ false) rs × IsOrdered before rs

pub All-take {κ} :
    {A : Type 0} (P : A → Type κ) (n : ℕ) (xs : List A) → All P xs → All P (take n xs)
All-take P zero xs h = tt
All-take P (suc n) [] h = tt
All-take P (suc n) (x ∷ xs) h = (h.0, All-take P n xs h.1)

IsOrdered-take :
    {R : Type 0} (before : R → R → Bool) (n : ℕ) (rs : List R)
    → IsOrdered before rs
    → IsOrdered before (take n rs)
IsOrdered-take before zero rs h = tt
IsOrdered-take before (suc n) [] h = tt
IsOrdered-take before (suc n) (r ∷ rs) h = (All-take _ n rs h.0, IsOrdered-take before n rs h.1)

Among-take :
    {R : Type 0} (before : R → R → Bool) (n : ℕ) (x : R) (rs : List R)
    → IsOrdered before rs
    → Among x rs
    → Among x (take n rs) ⊎ ((length (take n rs) ≡ n) × All (λ k. before x k ≡ false) (take n rs))
Among-take before zero x rs h m = inr (refl, tt)
Among-take before (suc n) x [] h m = absurd m
Among-take before (suc n) x (r ∷ rs) h (inl e) = inl (inl e)
Among-take before (suc n) x (r ∷ rs) h (inr m) = elim (Among-take before n x rs h.1 m) [
  | inl among ↦ inl (inr among)
  | inr (full, later) ↦ inr (ap suc full, (All-among _ x rs h.0 m, later))
]

Among-insert_by :
    {R : Type 0} (before : R → R → Bool) (r x : R) (rs : List R)
    → (r ≡ x) ⊎ Among x rs
    → Among x (insert_by before r rs)
unfolding insert_by
Among-insert_by before r x [] m = m
Among-insert_by before r x (k ∷ ks) m = elim (Bool-cases (before k r)) [
  | inr e ↦ rw e m
  | inl e ↦ rw e (elim m [
    | inl rx ↦ inr (Among-insert_by before r x ks (inl rx))
    | inr (inl kx) ↦ inl kx
    | inr (inr among) ↦ inr (Among-insert_by before r x ks (inr among))
  ])
]

pub Among-order_by :
    {R : Type 0} (before : R → R → Bool) (x : R) (rs : List R)
    → Among x rs
    → Among x (order_by before rs)
unfolding order_by
Among-order_by before x [] m = m
Among-order_by before x (r ∷ rs) (inl e) = Among-insert_by before r x (order_by before rs) (inl e)
Among-order_by before x (r ∷ rs) (inr m) =
    Among-insert_by before r x (order_by before rs) (inr (Among-order_by before x rs m))

module _ {R : Type 0} (before : R → R → Bool) (order : IsOrder before) where
  abbrev NotBefore : R → R → Type 0
  NotBefore r k = before k r ≡ false

  not-before_trans : (a b c : R) → NotBefore a b → NotBefore b c → NotBefore a c
  not-before_trans a b c ab bc = elim (Bool-cases (before c a)) [
    | inr e ↦ e
    | inl e ↦ elim (order.between c b a e) [
      | inl cb ↦ ground (arith, cb, bc)
      | inr ba ↦ ground (arith, ba, ab)
    ]
  ]

  insert_by-IsOrdered :
      (r : R) (rs : List R) → IsOrdered before rs → IsOrdered before (insert_by before r rs)
  unfolding insert_by
  insert_by-IsOrdered r [] h = (tt, tt)
  insert_by-IsOrdered r (k ∷ ks) h = elim (Bool-cases (before k r)) [
    | inl e ↦ rw e (
      All-insert_by (NotBefore k) before r ks (order.asymmetric k r e) h.0,
      insert_by-IsOrdered r ks h.1,
    )
    | inr e ↦ rw e ((e, All-map _ _ (λ x kx. not-before_trans r k x e kx) ks h.0), h)
  ]

  pub order_by-IsOrdered : (rs : List R) → IsOrdered before (order_by before rs)
  unfolding order_by
  order_by-IsOrdered [] = tt
  order_by-IsOrdered (r ∷ rs) = insert_by-IsOrdered r (order_by before rs) (order_by-IsOrdered rs)

  -- The first `n` rows in order: a row left out comes before none of them, and is left out only where
  -- there are `n`.
  pub record IsLeading (n : ℕ) (rs leading : List R) : Type 0 where
    pub ordered : IsOrdered before leading
    pub given : All (λ r. Among r rs) leading
    pub complete :
        All
          (λ r. Among r leading ⊎ ((length leading ≡ n) × All (λ k. before r k ≡ false) leading))
          rs

  pub take-IsLeading : (n : ℕ) (rs : List R) → IsLeading n rs (take n (order_by before rs))
  take-IsLeading n rs = record {
    ordered = IsOrdered-take before n _ (order_by-IsOrdered rs);
    given = All-take _ n _ (All-order_by _ before rs (All-intro _ rs (λ r among. among)));
    complete = All-intro _ rs (λ r among.
        Among-take before n r _ (order_by-IsOrdered rs) (Among-order_by before r rs among));
  }

text_lt-asymmetric : (a b : Text) → text_lt a b ≡ true → text_lt b a ≡ false
unfolding text_lt
text_lt-asymmetric [] [] h = refl
text_lt-asymmetric [] (d ∷ b) h = refl
text_lt-asymmetric (c ∷ a) [] h = ground arith
text_lt-asymmetric (c ∷ a) (d ∷ b) h = ground (arith, text_lt-asymmetric a b)

text_lt-between : (a b c : Text) → text_lt a c ≡ true → (text_lt a b ≡ true) ⊎ (text_lt b c ≡ true)
unfolding text_lt
text_lt-between [] [] c h = inr h
text_lt-between [] (d ∷ b) c h = inl refl
text_lt-between (x ∷ a) [] [] h = ground arith
text_lt-between (x ∷ a) (y ∷ b) [] h = ground arith
text_lt-between (x ∷ a) [] (z ∷ c) h = inr refl
text_lt-between (x ∷ a) (y ∷ b) (z ∷ c) h = ground (arith, text_lt-between a b c)

pub text_lt-IsOrder : IsOrder text_lt
text_lt-IsOrder = record { asymmetric = text_lt-asymmetric; between = text_lt-between }
