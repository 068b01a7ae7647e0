-- ===== src/MemoryEngine/Executor/Partition.antt =====
-- `microbatch_lengths` partitions the items in order into batches within both limits.
use mathlib.Core.List.{append-nil, append_assoc, map-append}
use supermemory_rs.Prelude.{
  Option, none, some, ℕ, ◌+◌, ◌*◌, ◌≤◌, ◌<◌, max, false, ◌≡◌, refl, ap, ◌∙◌, ◌⊎◌, inl, inr, List,
  [], ◌∷◌, ◌++◌, map, ok, err, ltb, if◌then◌else◌, length, length-append, All, All-append, arith,
  Bool-cases,
}
use supermemory_rs.MemoryEngine.Executor.Microbatch.{
  too_many_tokens, Batching, closes_batch, close_batch, add_item, microbatch_loop,
  microbatch_lengths,
}

abbrev pub concat {ℓ} : {A : Type ℓ} → List (List A) → List A
concat [] = []
concat (g ∷ gs) = g ++ concat gs

concat-append {ℓ} :
    {A : Type ℓ} (xs ys : List (List A)) → concat (xs ++ ys) ≡ concat xs ++ concat ys
concat-append [] ys = refl
concat-append (x ∷ xs) ys = simp (concat-append xs ys, append_assoc)

-- The longest item of a batch, to which all its items are padded.
abbrev pub longest_of : List ℕ → ℕ
longest_of [] = 0
longest_of (x ∷ xs) = max x (longest_of xs)

longest_of-snoc : (xs : List ℕ) (x : ℕ) → longest_of (xs ++ x ∷ []) ≡ max (longest_of xs) x
longest_of-snoc [] x = omega arith
longest_of-snoc (y ∷ xs) x = omega (arith, longest_of-snoc xs x)

-- A batch that the model may be given.
pub record Fits (max_items max_padded_tokens : ℕ) (batch : List ℕ) : Type 0 where
  pub nonempty : 0 < length batch
  pub few : (length batch ≤ max_items) ⊎ (length batch ≡ 1)
  pub padded : length batch * longest_of batch ≤ max_padded_tokens

-- The batches of `counts` cut `lengths` in order, and each fits.
pub record IsPartition (max_items max_padded_tokens : ℕ) (lengths counts : List ℕ) : Type 0 where
  pub groups : List (List ℕ)
  pub in_order : concat groups ≡ lengths
  pub sizes : map (length {A = ℕ}) groups ≡ counts
  pub fit : All (Fits max_items max_padded_tokens) groups

-- What holds of the loop's variables: `closed` are the batches pushed, `current` the open one.
record Cut (max_items max_padded_tokens : ℕ) (b : Batching) (closed : List (List ℕ))
    (current : List ℕ) : Type 0 where
  sizes : map (length {A = ℕ}) closed ≡ b.batches
  fit : All (Fits max_items max_padded_tokens) closed
  items : length current ≡ b.items
  longest : longest_of current ≤ b.longest
  open_fits : 0 < length current → Fits max_items max_padded_tokens current

regroup {ℓ} :
    {A : Type ℓ} (xs ys before now : List A) (t : A) (ts : List A)
    → xs ++ ys ≡ (before ++ now) ++ t ∷ []
    → xs ++ ys ++ ts ≡ before ++ now ++ t ∷ ts
regroup xs ys before now t ts same = ap (λ l. l ++ ts) same ∙ simp append_assoc

padded_mono : (n m l k p : ℕ) → n ≤ m → l ≤ k → m * k ≤ p → n * l ≤ p
padded_mono n m l k p h h' q = grind arith

module _ {max_items max_padded_tokens : ℕ} where
  -- An item that does not close the batch joins it.
  Cut-add :
      (b : Batching) (closed : List (List ℕ)) (current : List ℕ) (tokens : ℕ)
      → Cut max_items max_padded_tokens b closed current
      → tokens ≤ max_padded_tokens
      → closes_batch max_items max_padded_tokens b tokens ≡ false
      → Cut max_items max_padded_tokens (add_item tokens b) closed (current ++ tokens ∷ [])
  unfolding closes_batch add_item
  Cut-add b closed [] tokens cut fits stays = record {
    sizes = cut.sizes;
    fit = cut.fit;
    items = omega (arith, cut.items);
    longest = omega arith;
    open_fits = λ _. record { nonempty = omega arith; few = inr refl; padded = omega arith };
  }
  Cut-add b closed (x ∷ current) tokens cut fits stays = record {
    sizes = cut.sizes;
    fit = cut.fit;
    items = omega (arith, cut.items, length-append current (tokens ∷ []));
    longest = omega (arith, cut.longest, longest_of-snoc (x ∷ current) tokens);
    open_fits = λ _. record {
      nonempty = omega arith;
      few = inl (ground (arith, cut.items, length-append current (tokens ∷ [])));
      padded =
          padded_mono _ (b.items + 1) _ (max b.longest tokens) _
            (omega (arith, cut.items, length-append current (tokens ∷ [])))
            (omega (arith, cut.longest, longest_of-snoc (x ∷ current) tokens))
            (ground (arith, cut.items));
    };
  }

  Cut-close :
      (b : Batching) (closed : List (List ℕ)) (current : List ℕ)
      → Cut max_items max_padded_tokens b closed current
      → 0 < length current
      → Cut max_items max_padded_tokens (close_batch b) (closed ++ current ∷ []) []
  unfolding close_batch
  Cut-close b closed current cut some_open = record {
    sizes = simp (map-append, cut.sizes, cut.items);
    fit =
        All-append (Fits max_items max_padded_tokens) closed (current ∷ []) cut.fit
          (cut.open_fits some_open, tt);
    items = refl;
    longest = omega arith;
    open_fits = λ h. elim h [ ];
  }

  -- The open batch is closed, if the item asks for it, and the item is added.
  Cut-step :
      (b : Batching) (closed : List (List ℕ)) (current : List ℕ) (tokens : ℕ)
      → Cut max_items max_padded_tokens b closed current
      → tokens ≤ max_padded_tokens
      → (closed' : List (List ℕ)) × (current' : List ℕ) × Cut max_items max_padded_tokens
          (add_item tokens
            (if closes_batch max_items max_padded_tokens b tokens then close_batch b else b))
          closed'
          current'
        × (concat closed' ++ current' ≡ (concat closed ++ current) ++ tokens ∷ [])
  Cut-step b closed current tokens cut fits =
      elim (Bool-cases (closes_batch max_items max_padded_tokens b tokens)) [
        | inl closes ↦ (
          closed ++ current ∷ [],
          tokens ∷ [],
          rw closes (
              Cut-add (close_batch b) (closed ++ current ∷ []) [] tokens
                (Cut-close b closed current cut
                  (unfold closes_batch in ground (arith, cut.items, closes)))
                fits (unfold closes_batch close_batch in refl)),
          simp (concat-append, append-nil, append_assoc),
        )
        | inr stays ↦ (
          closed,
          current ++ tokens ∷ [],
          rw stays (Cut-add b closed current tokens cut fits stays),
          simp append_assoc,
        )
      ]

  loop_partitions :
      (E : Type 0) (lengths : List ℕ) (b : Batching) (closed : List (List ℕ)) (current : List ℕ)
      → Cut max_items max_padded_tokens b closed current
      → All (λ t. t ≤ max_padded_tokens) lengths
      → (counts : List ℕ) × (microbatch_loop {E = E} max_items max_padded_tokens lengths b
          ≡ ok counts)
        × IsPartition max_items max_padded_tokens (concat closed ++ current ++ lengths) counts
  unfolding microbatch_loop
  loop_partitions E [] b closed [] cut small = (
    b.batches,
    ground (arith, cut.items),
    record { groups = closed; in_order = simp append-nil; sizes = cut.sizes; fit = cut.fit },
  )
  loop_partitions E [] b closed (x ∷ current) cut small = (
    b.batches ++ b.items ∷ [],
    ground (arith, cut.items),
    record {
      groups = closed ++ (x ∷ current) ∷ [];
      in_order = simp (concat-append, append-nil);
      sizes = (Cut-close b closed (x ∷ current) cut (omega arith)).sizes;
      fit = (Cut-close b closed (x ∷ current) cut (omega arith)).fit;
    },
  )
  loop_partitions E (tokens ∷ lengths) b closed current cut small =
      let (closed', current', cut', same) = Cut-step b closed current tokens cut small.0 in
      let (counts, runs, parts) = loop_partitions E lengths _ closed' current' cut' small.1 in
      (
        counts,
        ground (arith, runs),
        record {
          groups = parts.groups;
          in_order =
              parts.in_order ∙ regroup (concat closed') current' _ current tokens lengths same;
          sizes = parts.sizes;
          fit = parts.fit;
        },
      )

-- Within the token limit, the microbatches cut the items in order, each within both limits: none
-- is empty, one of several items has at most `max_items`, and each is padded to at most
-- `max_padded_tokens`.
pub microbatch_lengths-IsPartition :
    (E : Type 0) (lengths : List ℕ) (max_items max_padded_tokens : ℕ)
    → All (λ t. t ≤ max_padded_tokens) lengths
    → (counts : List ℕ) × (microbatch_lengths {E = E} lengths max_items max_padded_tokens
        ≡ ok counts)
      × IsPartition max_items max_padded_tokens lengths counts
unfolding microbatch_lengths
microbatch_lengths-IsPartition E lengths max_items max_padded_tokens small =
    loop_partitions E lengths (record { batches = []; items = 0; longest = 1 }) [] []
      (record {
        sizes = refl;
        fit = tt;
        items = refl;
        longest = omega arith;
        open_fits = λ h. elim h [ ];
      })
      small

-- The first item over the token limit, if there is one.
abbrev pub first_over : ℕ → List ℕ → Option ℕ
first_over limit [] = none
first_over limit (t ∷ ts) = if ltb limit t then some t else first_over limit ts

loop_rejects :
    (E : Type 0) (max_items max_padded_tokens : ℕ) (lengths : List ℕ) (b : Batching) (t : ℕ)
    → first_over max_padded_tokens lengths ≡ some t
    → microbatch_loop {E = E} max_items max_padded_tokens lengths b
      ≡ err (too_many_tokens max_padded_tokens t)
unfolding microbatch_loop
loop_rejects E max_items max_padded_tokens [] b t h = cc
loop_rejects E max_items max_padded_tokens (x ∷ lengths) b t h =
    elim (Bool-cases (ltb max_padded_tokens x)) [
      | inl over ↦ ground (arith, over)
      | inr under ↦
          rw under (loop_rejects E max_items max_padded_tokens lengths _ t (rw under at h))
    ]

-- An item over the token limit is rejected: the error names the limit and the first such item.
pub microbatch_lengths-too_many_tokens :
    (E : Type 0) (lengths : List ℕ) (max_items max_padded_tokens t : ℕ)
    → first_over max_padded_tokens lengths ≡ some t
    → microbatch_lengths {E = E} lengths max_items max_padded_tokens
      ≡ err (too_many_tokens max_padded_tokens t)
unfolding microbatch_lengths
microbatch_lengths-too_many_tokens E lengths max_items max_padded_tokens t h =
    loop_rejects E max_items max_padded_tokens lengths _ t h
