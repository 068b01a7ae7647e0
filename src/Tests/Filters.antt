-- ===== src/Tests/Filters.antt =====
-- The filters of crates/storage and crates/server at a filter of two conditions. A number stands for
-- the JSON value that the tables below give it.
use supermemory_rs.Prelude.{
  ℕ, Text, text_eq, codes, true, false, ◌≡◌, ◌↔◌, refl, [], ◌∷◌, Option, none, some, ok, OnOk, ltb,
  leb, ◌==◌, if◌then◌else◌,
}
use supermemory_rs.Storage.Tables.{Metadata}
use supermemory_rs.Storage.Memories.Dedup.{Unicode}
use supermemory_rs.Storage.Filters.{
  metadata, array_contains, equal, FilterExpression, and_all, condition, no_filters, filter, Json,
  matches_filter,
}
use supermemory_rs.Storage.Filters.Negation.{negated, matches_filter-excludes}
use supermemory_rs.Server.Filters.{parse_filter}
use supermemory_rs.Server.Filters.Bounds.{IsBounded, parse_filter-IsBounded}

abbrev ascii_filters : Unicode
ascii_filters = record { to_lowercase = λ t. t; is_alphanumeric = λ c. leb 97 c }

-- 1: {"AND": 2}, 2: [3, 4], 3: {"key": 5, "value": 6}, 4: {"key": 7, "value": 6, "filterType": 8,
-- "negate": 9}, 5: "lang", 6: "rust", 7: "tags", 8: "array_contains", 9: true, 10: [6].
abbrev value_text : ℕ → Option Text
value_text n =
    if n == 5
    then some (codes "lang")
    else if n == 6
    then some (codes "rust")
    else if n == 7
    then some (codes "tags")
    else if n == 8
    then some (codes "array_contains")
    else none

abbrev value_fields : ℕ → Option (Metadata ℕ)
value_fields n =
    if n == 1
    then some ((codes "AND", 2) ∷ [])
    else if n == 3
    then some ((codes "key", 5) ∷ (codes "value", 6) ∷ [])
    else if n == 4
    then some
        ((codes "key", 7) ∷ (codes "value", 6) ∷ (codes "filterType", 8) ∷ (codes "negate", 9) ∷ [])
    else none

abbrev values : Json
values = record {
  V = ℕ;
  F = ℕ;
  as_str = value_text;
  as_number = λ _. none;
  as_bool = λ n. if n == 9 then some true else none;
  as_array = λ n. if n == 2 then some (3 ∷ 4 ∷ []) else if n == 10 then some (6 ∷ []) else none;
  as_object = value_fields;
  as_f64 = λ _. none;
  from_str = λ _. none;
  parse_f64 = λ _. none;
  is_greater = λ a b. ltb b a;
  is_greater_or_equal = λ a b. leb b a;
  is_total_equal = λ a b. a == b;
}

abbrev in_rust : FilterExpression
in_rust = condition (record {
  key = codes "lang";
  value = codes "rust";
  kind = metadata;
  numeric_operator = equal;
  negate = false;
  ignore_case = false;
})

abbrev not_tagged : FilterExpression
not_tagged = condition (record {
  key = codes "tags";
  value = codes "rust";
  kind = array_contains;
  numeric_operator = equal;
  negate = true;
  ignore_case = false;
})

abbrev both : FilterExpression
both = and_all (filter in_rust (filter not_tagged no_filters))

parsed_both : parse_filter values 1 ≡ ok both
unfolding parse_filter text_eq
parsed_both = refl

-- An untagged document in Rust matches, and one that is tagged does not.
untagged_matches : matches_filter values ascii_filters both ((codes "lang", 6) ∷ []) ≡ true
unfolding matches_filter text_eq
untagged_matches = refl

tagged_differs :
    matches_filter values ascii_filters both ((codes "lang", 6) ∷ (codes "tags", 10) ∷ []) ≡ false
unfolding matches_filter text_eq
tagged_differs = refl

matches_filter-excludes_example :
    (matches_filter values ascii_filters both ((codes "lang", 6) ∷ []) ≡ true)
    ↔ (matches_filter values ascii_filters (negated both) ((codes "lang", 6) ∷ []) ≡ false)
matches_filter-excludes_example =
    matches_filter-excludes values ascii_filters ((codes "lang", 6) ∷ []) both

parse_filter-IsBounded_example : OnOk IsBounded (parse_filter values 1)
parse_filter-IsBounded_example = parse_filter-IsBounded values 1
