-- ===== src/Prelude/Lists.antt =====
-- Lists measured by native numbers, and a predicate on all elements.
use Prim.Native.Nat.{ℕ, zero, suc, ◌+◌, ◌-◌, min}
use mathlib.Core.Path.{◌≡◌, refl}
use mathlib.Core.List.{List, [], ◌∷◌, ◌++◌}
use native.Mathlib.Omega.{arith}

module _ {ℓ} {A : Type ℓ} where
  abbrev pub length : List A → ℕ
  length [] = 0
  length (x ∷ xs) = suc (length xs)

  abbrev pub take : ℕ → List A → List A
  take zero xs = []
  take (suc n) [] = []
  take (suc n) (x ∷ xs) = x ∷ take n xs

  abbrev pub drop : ℕ → List A → List A
  drop zero xs = xs
  drop (suc n) [] = []
  drop (suc n) (x ∷ xs) = drop n xs

  pub length-append : (xs ys : List A) → length (xs ++ ys) ≡ length xs + length ys
  length-append [] ys = omega arith
  length-append (x ∷ xs) ys = omega (arith, length-append xs ys)

  pub take-append-drop : (n : ℕ) (xs : List A) → take n xs ++ drop n xs ≡ xs
  take-append-drop zero xs = refl
  take-append-drop (suc n) [] = refl
  take-append-drop (suc n) (x ∷ xs) = rw (take-append-drop n xs)

  pub length-take : (n : ℕ) (xs : List A) → length (take n xs) ≡ min n (length xs)
  length-take zero xs = omega arith
  length-take (suc n) [] = omega arith
  length-take (suc n) (x ∷ xs) = omega (arith, length-take n xs)

  pub length-drop : (n : ℕ) (xs : List A) → length (drop n xs) ≡ length xs - n
  length-drop zero xs = omega arith
  length-drop (suc n) [] = omega arith
  length-drop (suc n) (x ∷ xs) = omega (arith, length-drop n xs)

abbrev pub sum : List ℕ → ℕ
sum [] = 0
sum (x ∷ xs) = x + sum xs

pub sum-append : (xs ys : List ℕ) → sum (xs ++ ys) ≡ sum xs + sum ys
sum-append [] ys = omega arith
sum-append (x ∷ xs) ys = omega (arith, sum-append xs ys)

-- Every element satisfies `P`.
abbrev pub All {ℓ κ} : {A : Type ℓ} → (A → Type κ) → List A → Type κ
All P [] = Unit
All P (x ∷ xs) = P x × All P xs

pub All-append {ℓ κ} :
    {A : Type ℓ} (P : A → Type κ) (xs ys : List A) → All P xs → All P ys → All P (xs ++ ys)
All-append P [] ys hx hy = hy
All-append P (x ∷ xs) ys hx hy = (hx.0, All-append P xs ys hx.1 hy)

pub All-map {ℓ κ μ} :
    {A : Type ℓ} (P : A → Type κ) (Q : A → Type μ) (f : (x : A) → P x → Q x) (xs : List A)
    → All P xs
    → All Q xs
All-map P Q f [] h = tt
All-map P Q f (x ∷ xs) h = (f x h.0, All-map P Q f xs h.1)

-- The lists match, element by element.
abbrev pub Pairs : {A B : Type 0} → (A → B → Type 0) → List A → List B → Type 0
Pairs P [] [] = Unit
Pairs P [] (y ∷ ys) = ⊥
Pairs P (x ∷ xs) [] = ⊥
Pairs P (x ∷ xs) (y ∷ ys) = P x y × Pairs P xs ys

pub Pairs-snoc :
    {A B : Type 0} (P : A → B → Type 0) (xs : List A) (ys : List B) (x : A) (y : B)
    → Pairs P xs ys
    → P x y
    → Pairs P (xs ++ x ∷ []) (ys ++ y ∷ [])
Pairs-snoc P [] [] x y h new = (new, tt)
Pairs-snoc P [] (b ∷ ys) x y h new = absurd h
Pairs-snoc P (a ∷ xs) [] x y h new = absurd h
Pairs-snoc P (a ∷ xs) (b ∷ ys) x y h new = (h.0, Pairs-snoc P xs ys x y h.1 new)

pub Pairs-map :
    {A B : Type 0} (P : A → B → Type 0) (Q : A → B → Type 0) (xs : List A) (ys : List B)
    → ((x : A) (y : B) → P x y → Q x y)
    → Pairs P xs ys
    → Pairs Q xs ys
Pairs-map P Q [] [] f h = tt
Pairs-map P Q [] (b ∷ ys) f h = absurd h
Pairs-map P Q (a ∷ xs) [] f h = absurd h
Pairs-map P Q (a ∷ xs) (b ∷ ys) f h = (f a b h.0, Pairs-map P Q xs ys f h.1)
