-- ===== src/MemoryEngine/Executor/Batches.antt =====
-- The limits of a batch, and what filling it takes off a queue.
use mathlib.Core.Path.{subst}
use supermemory_rs.Prelude.{
  ℕ, ◌+◌, ◌*◌, ◌≤◌, max, ltb, false, ◌≡◌, refl, sym, ap, List, [], ◌∷◌, ◌++◌, Option, none, some,
  All, All-map, length, length-append, arith, Bool-cases, inl, inr,
}
use supermemory_rs.MemoryEngine.Executor.Scheduler.{
  PreparedEmbeddingInput, Request, Filled, exceeds, fill, batch_values, max_tokens,
}

abbrev pub total_items : List Request → ℕ
total_items [] = 0
total_items (r ∷ rs) = length r.values + total_items rs

abbrev pub longest_request : List Request → ℕ
longest_request [] = 0
longest_request (r ∷ rs) = max r.max_item_tokens (longest_request rs)

abbrev pub deferred_list : Option Request → List Request
deferred_list none = []
deferred_list (some r) = r ∷ []

length-batch_values : (rs : List Request) → length (batch_values rs) ≡ total_items rs
unfolding batch_values
length-batch_values [] = refl
length-batch_values (r ∷ rs) =
    omega (arith, length-append r.values (batch_values rs), length-batch_values rs)

max_tokens-append :
    (xs ys : List PreparedEmbeddingInput)
    → max_tokens (xs ++ ys) ≡ max (max_tokens xs) (max_tokens ys)
unfolding max_tokens
max_tokens-append [] ys = omega arith
max_tokens-append (x ∷ xs) ys = omega (arith, max_tokens-append xs ys)

widest :
    (rs : List Request)
    → All (λ r. max_tokens r.values ≤ r.max_item_tokens) rs
    → max_tokens (batch_values rs) ≤ longest_request rs
unfolding batch_values max_tokens
widest [] h = omega arith
widest (r ∷ rs) h = omega (arith, max_tokens-append r.values (batch_values rs), h.0, widest rs h.1)

product_mono : (n l k p : ℕ) → l ≤ k → n * k ≤ p → n * l ≤ p
product_mono n l k p h q = grind arith

pub All-prefix {κ} : {A : Type 0} (P : A → Type κ) (xs ys : List A) → All P (xs ++ ys) → All P xs
All-prefix P [] ys h = tt
All-prefix P (x ∷ xs) ys h = (h.0, All-prefix P xs ys h.1)

pub All-suffix {κ} : {A : Type 0} (P : A → Type κ) (xs ys : List A) → All P (xs ++ ys) → All P ys
All-suffix P [] ys h = h
All-suffix P (x ∷ xs) ys h = All-suffix P xs ys h.1

module _ (max_items max_padded_tokens : ℕ) where
  -- A request that fits a batch on its own, and says how long its longest item is.
  pub record IsAdmissible (r : Request) : Type 0 where
    pub few : length r.values ≤ max_items
    pub padded : length r.values * r.max_item_tokens ≤ max_padded_tokens
    pub counted : r.item_count ≡ length r.values
    pub longest : max_tokens r.values ≤ r.max_item_tokens

  abbrev Bounded : ℕ → ℕ → List Request → Type 0
  Bounded items longest rs =
      (items + total_items rs ≤ max_items)
      × ((items + total_items rs) * max longest (longest_request rs) ≤ max_padded_tokens)

  Bounded-none :
      (items longest : ℕ)
      → items ≤ max_items
      → items * longest ≤ max_padded_tokens
      → Bounded items longest []
  Bounded-none items longest few padded = (omega (arith, few), product_mono_eq items longest padded)
    where
      product_mono_eq :
          (n l : ℕ) → n * l ≤ max_padded_tokens → (n + 0) * max l 0 ≤ max_padded_tokens
      product_mono_eq n l h =
          let e : n + 0 ≡ n = omega arith in let e' : max l 0 ≡ l = omega arith in rw (e, e') h

  Bounded-cons :
      (items longest : ℕ) (r : Request) (rs : List Request)
      → Bounded (items + length r.values) (max longest r.max_item_tokens) rs
      → Bounded items longest (r ∷ rs)
  Bounded-cons items longest r rs h =
      let e : items + (length r.values + total_items rs)
          ≡ items + length r.values + total_items rs =
        omega arith in
      let e' : max longest (max r.max_item_tokens (longest_request rs))
          ≡ max (max longest r.max_item_tokens) (longest_request rs) =
        omega arith in
      (omega (arith, h.0), rw (e, e') h.1)

  abbrev filled : ℕ → ℕ → List Request → Filled
  filled items longest queue = fill max_items max_padded_tokens items longest queue

  not_exceeded :
      (items longest : ℕ) (r : Request)
      → exceeds max_items max_padded_tokens items longest r ≡ false
      → (items + length r.values ≤ max_items)
        × ((items + length r.values) * max longest r.max_item_tokens ≤ max_padded_tokens)
  unfolding exceeds
  not_exceeded items longest r h = (ground arith, ground arith)

  pub fill-Bounded :
      (items longest : ℕ) (queue : List Request)
      → items ≤ max_items
      → items * longest ≤ max_padded_tokens
      → Bounded items longest ((fill max_items max_padded_tokens items longest queue).requests)
  unfolding fill
  fill-Bounded items longest [] few padded = Bounded-none items longest few padded
  fill-Bounded items longest (r ∷ queue) few padded = elim (Bool-cases (ltb items max_items)) [
    | inr full ↦ rw full (Bounded-none items longest few padded)
    | inl room ↦ elim (Bool-cases (exceeds max_items max_padded_tokens items longest r)) [
      | inl over ↦ rw (room, over) (Bounded-none items longest few padded)
      | inr fits ↦
          let (few', padded') = not_exceeded items longest r fits in
          rw (room, fits)
            (Bounded-cons items longest r _ (
              fill-Bounded (items + length r.values) (max longest r.max_item_tokens) queue few'
                padded'))
    ]
  ]

  -- Filling takes requests off the front of the queue, and keeps one at most apart.
  pub fill-append :
      (items longest : ℕ) (queue : List Request)
      → (fill max_items max_padded_tokens items longest queue).requests
          ++ (deferred_list ((fill max_items max_padded_tokens items longest queue).deferred)
              ++ (fill max_items max_padded_tokens items longest queue).rest)
        ≡ queue
  unfolding fill
  fill-append items longest [] = refl
  fill-append items longest (r ∷ queue) = elim (Bool-cases (ltb items max_items)) [
    | inr full ↦ rw full refl
    | inl room ↦ elim (Bool-cases (exceeds max_items max_padded_tokens items longest r)) [
      | inl over ↦ rw (room, over) refl
      | inr fits ↦
          rw (room, fits)
            (ap (λ rs. r ∷ rs)
              (fill-append (items + length r.values) (max longest r.max_item_tokens) queue))
    ]
  ]

  -- What holds of the queue holds of what is taken, deferred and left.
  pub fill-All :
      (P : Request → Type 0) (items longest : ℕ) (queue : List Request)
      → All P queue
      → All P ((fill max_items max_padded_tokens items longest queue).requests)
        × All P (deferred_list ((fill max_items max_padded_tokens items longest queue).deferred))
        × All P ((fill max_items max_padded_tokens items longest queue).rest)
  fill-All P items longest queue h =
      let taken = (fill max_items max_padded_tokens items longest queue).requests in
      let held = deferred_list (fill max_items max_padded_tokens items longest queue).deferred in
      let whole = subst (All P) (sym (fill-append items longest queue)) h in
      let rest = All-suffix P taken _ whole in
      (All-prefix P taken _ whole, All-prefix P held _ rest, All-suffix P held _ rest)

  -- A batch that keeps to both limits, each item padded to the longest.
  pub record IsWithin (rs : List Request) : Type 0 where
    pub few : length (batch_values rs) ≤ max_items
    pub padded : length (batch_values rs) * max_tokens (batch_values rs) ≤ max_padded_tokens

  pub fill-IsWithin :
      (r : Request) (queue : List Request)
      → IsAdmissible r
      → All IsAdmissible queue
      → IsWithin (
          r ∷ (fill max_items max_padded_tokens (length r.values) r.max_item_tokens queue).requests)
  fill-IsWithin r queue h hs =
      let taken =
        (fill max_items max_padded_tokens (length r.values) r.max_item_tokens queue).requests in
      let (few, padded) = fill-Bounded (length r.values) r.max_item_tokens queue h.few h.padded in
      let same = length-batch_values (r ∷ taken) in
      let wide = widest (r ∷ taken) (
        h.longest,
        All-map _ _ (λ k a. a.longest) taken
            (fill-All IsAdmissible (length r.values) r.max_item_tokens queue hs).0,
      ) in
      record {
        few = omega (arith, same, few);
        padded =
            product_mono (length (batch_values (r ∷ taken))) (max_tokens (batch_values (r ∷ taken)))
              (max r.max_item_tokens (longest_request taken)) max_padded_tokens wide
              (rw same padded);
      }
