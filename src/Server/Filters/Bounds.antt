-- ===== src/Server/Filters/Bounds.antt =====
-- How large and how deep the filters are that crates/server/src/lib.rs accepts.
use supermemory_rs.Prelude.{
  ℕ, zero, suc, ◌+◌, ◌*◌, ◌≤◌, max, ◌≡◌, List, [], ◌∷◌, length, Result, ok, err, arith, ltb, OnOk,
  false, ◌||◌, Option-cases, Bool-cases, inl, inr, codes,
}
use supermemory_rs.Storage.Tables.{Metadata}
use supermemory_rs.Storage.Memories.Profiles.{get_value}
use supermemory_rs.Storage.Filters.{
  FilterExpression, FilterExpressions, and_all, or_any, condition, no_filters, filter, Json,
}
use supermemory_rs.Server.Filters.{
  FilterError, saturating_add, parse_condition, parse_leaf, parse_each, group, parse_group,
  parse_filter_at, parsed_value, parse_filter, or_else, ◌>>=◌, ok_or, is_some, invalid_structure,
  not_arrays,
}

unfoldable mutual
  pub conditions_of : FilterExpression → ℕ
  conditions_of (and_all fs) = conditions_in fs
  conditions_of (or_any fs) = conditions_in fs
  conditions_of (condition c) = 1

  pub conditions_in : FilterExpressions → ℕ
  conditions_in no_filters = 0
  conditions_in (filter f fs) = conditions_of f + conditions_in fs

-- The levels of nesting, of which a condition is one.
unfoldable mutual
  pub depth_of : FilterExpression → ℕ
  depth_of (and_all fs) = suc (depth_in fs)
  depth_of (or_any fs) = suc (depth_in fs)
  depth_of (condition c) = 1

  pub depth_in : FilterExpressions → ℕ
  depth_in no_filters = 0
  depth_in (filter f fs) = max (depth_of f) (depth_in fs)

-- What the parser counts: each condition, and each entry of an array.
unfoldable mutual
  pub counted_of : FilterExpression → ℕ
  counted_of (and_all fs) = counted_in fs
  counted_of (or_any fs) = counted_in fs
  counted_of (condition c) = 1

  pub counted_in : FilterExpressions → ℕ
  counted_in no_filters = 0
  counted_in (filter f fs) = suc (counted_of f) + counted_in fs

mutual
  unfolding counted_of counted_in conditions_of conditions_in

  -- A condition in an array counts twice.
  counted_twice : (f : FilterExpression) → 2 * conditions_of f ≤ suc (counted_of f)
  counted_twice (and_all fs) = ground (arith, counted_twice_in fs)
  counted_twice (or_any fs) = ground (arith, counted_twice_in fs)
  counted_twice (condition c) = omega arith

  counted_twice_in : (fs : FilterExpressions) → 2 * conditions_in fs ≤ counted_in fs
  counted_twice_in no_filters = omega arith
  counted_twice_in (filter f fs) = ground (arith, counted_twice f, counted_twice_in fs)

OnOk-bind :
    {A B : Type 0} (P : A → Type 0) (Q : B → Type 0) (r : Result FilterError A)
    (f : A → Result FilterError B)
    → OnOk P r
    → ((x : A) → P x → OnOk Q (f x))
    → OnOk Q (r >>= f)
OnOk-bind P Q (err e) f h k = tt
OnOk-bind P Q (ok x) f h k = k x h

OnOk-any : {A : Type 0} (r : Result FilterError A) → OnOk (λ _. Unit {0}) r
OnOk-any (err e) = tt
OnOk-any (ok x) = tt

saturating_add_lem :
    (a b : ℕ) → ltb 200 (saturating_add a b) ≡ false → (saturating_add a b ≡ a + b) × (a + b ≤ 200)
unfolding saturating_add
saturating_add_lem a b h = ground arith

-- The count of conditions and the nesting of a parsed filter, from a count before it.
abbrev IsCounted : ℕ → ℕ → FilterExpression × ℕ → Type 0
IsCounted levels before (f, after) =
    (after ≡ before + counted_of f) × (after ≤ 200) × (depth_of f ≤ levels)

abbrev AreCounted : ℕ → ℕ → ℕ → FilterExpressions × ℕ → Type 0
AreCounted levels entries before (fs, after) =
    (after + entries ≡ before + counted_in fs) × (after ≤ 200) × (depth_in fs ≤ levels)

-- At most a hundred conditions, a count of at most two hundred, and at most nine levels.
pub record IsBounded (f : FilterExpression) : Type 0 where
  pub few_conditions : conditions_of f ≤ 100
  pub few_counted : counted_of f ≤ 200
  pub few_levels : depth_of f ≤ 9

module _ (json : Json) where
  parse_leaf-IsCounted :
      (levels : ℕ) (object : Metadata json.V) (before : ℕ)
      → OnOk (IsCounted (suc levels) before) (parse_leaf json object before)
  unfolding parse_leaf counted_of depth_of
  parse_leaf-IsCounted levels object before =
      elim (Bool-cases (ltb 200 (saturating_add before 1))) [
        | inl e ↦ rw (e, OnOk, parse_leaf) tt
        | inr e ↦
            rw (e, OnOk, parse_leaf)
              (OnOk-bind (λ _. Unit) (IsCounted (suc levels) before) (parse_condition json object) _
                (OnOk-any _)
                (λ c _.
                  let (sum, small) = saturating_add_lem before 1 e in
                  (sum, omega (arith, sum, small), omega arith)))
      ]

  parse_each-AreCounted :
      (levels : ℕ) (parse : json.V → ℕ → Result FilterError (FilterExpression × ℕ))
      (values : List json.V) (before : ℕ)
      → ((v : json.V) (n : ℕ) → n ≤ 200 → OnOk (IsCounted levels n) (parse v n))
      → before ≤ 200
      → OnOk (AreCounted levels (length values) before) (parse_each json parse values before)
  unfolding parse_each counted_in depth_in
  parse_each-AreCounted levels parse [] before each small = omega arith
  parse_each-AreCounted levels parse (v ∷ vs) before each small =
      OnOk-bind (IsCounted levels before) _ (parse v before) _ (each v before small) (λ first f.
        OnOk-bind (AreCounted levels (length vs) first.1) _ (parse_each json parse vs first.1) _
          (parse_each-AreCounted levels parse vs first.1 each f.1) (λ rest r. omega (arith, f, r)))

  group-IsCounted :
      (levels entries : ℕ) (object : Metadata json.V) (before counted : ℕ)
      (nested : FilterExpressions × ℕ)
      → AreCounted levels entries counted nested
      → counted ≡ before + entries
      → IsCounted (suc levels) before (group json object nested.0, nested.1)
  unfolding group counted_of depth_of
  group-IsCounted levels entries object before counted nested n sum =
      elim (Bool-cases (is_some (get_value (codes "AND") object))) [
        | inl e ↦ rw (e, group) (omega (arith, n, sum), n.1, omega (arith, n))
        | inr e ↦ rw (e, group) (omega (arith, n, sum), n.1, omega (arith, n))
      ]

  parse_group-IsCounted :
      (levels : ℕ) (parse : json.V → ℕ → Result FilterError (FilterExpression × ℕ))
      (object : Metadata json.V) (values : List json.V) (before : ℕ)
      → ((v : json.V) (n : ℕ) → n ≤ 200 → OnOk (IsCounted levels n) (parse v n))
      → OnOk (IsCounted (suc levels) before) (parse_group json parse object values before)
  unfolding parse_group group counted_of depth_of
  parse_group-IsCounted levels parse object values before each =
      let counted = saturating_add before (length values) in
      elim (Bool-cases (ltb 200 (length values) || ltb 200 counted)) [
        | inl e ↦ rw (e, OnOk, parse_group) tt
        | inr e ↦
            let (sum, small) = saturating_add_lem before (length values) (ground arith) in
            rw (e, OnOk, parse_group)
              (OnOk-bind (AreCounted levels (length values) counted) (IsCounted (suc levels) before)
                (parse_each json parse values counted) _
                (parse_each-AreCounted levels parse values counted each (omega (arith, sum, small)))
                (λ nested n.
                  group-IsCounted levels (length values) object before counted nested n sum))
      ]

  parse_filter_at-IsCounted :
      (levels : ℕ) (value : json.V) (before : ℕ)
      → before ≤ 200
      → OnOk (IsCounted levels before) (parse_filter_at json levels value before)
  unfolding parse_filter_at
  parse_filter_at-IsCounted zero value before small = tt
  parse_filter_at-IsCounted (suc levels) value before small =
      OnOk-bind (λ _. Unit) (IsCounted (suc levels) before)
        (ok_or invalid_structure (json.as_object value)) _ (OnOk-any _)
        (λ object _.
          elim (Option-cases
            (or_else (get_value (codes "AND") object) (get_value (codes "OR") object))) [
              | inl e ↦ rw (e, OnOk, parse_filter_at) (parse_leaf-IsCounted levels object before)
              | inr (array, e) ↦
                  rw (e, OnOk, parse_filter_at)
                    (OnOk-bind (λ _. Unit) (IsCounted (suc levels) before)
                      (ok_or not_arrays (json.as_array array)) _ (OnOk-any _)
                      (λ values _.
                        parse_group-IsCounted levels (parse_filter_at json levels) object values
                          before (parse_filter_at-IsCounted levels)))
            ])

  -- Every filter that is accepted has at most a hundred conditions, since a condition in an array of
  -- AND or OR is counted twice towards the two hundred that are allowed, and at most nine levels, the
  -- conditions among them.
  pub parse_filter-IsBounded : (value : json.V) → OnOk IsBounded (parse_filter json value)
  unfolding parse_filter
  parse_filter-IsBounded value =
      OnOk-bind (λ _. Unit) IsBounded (parsed_value json value) _ (OnOk-any _)
        (λ parsed _.
          OnOk-bind (IsCounted 9 0) IsBounded (parse_filter_at json 9 parsed 0) _
            (parse_filter_at-IsCounted 9 parsed 0 (omega arith))
            (λ result r. record {
              few_conditions = omega (arith, r, counted_twice result.0);
              few_counted = omega (arith, r);
              few_levels = r.2;
            }))
