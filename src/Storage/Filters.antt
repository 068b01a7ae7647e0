-- ===== src/Storage/Filters.antt =====
-- The metadata filters of crates/storage/src/lib.rs: `FilterExpression` and `matches_filter`. JSON
-- values and 64-bit floats are parameters.
use supermemory_rs.Prelude.{
  Text, codes, text_eq, Bool, true, false, not, ◌&&◌, ◌||◌, List, [], ◌∷◌, Option, none, some,
  if◌then◌else◌, contains,
}
use supermemory_rs.Storage.Tables.{Metadata}
use supermemory_rs.Storage.Memories.Dedup.{Unicode}
use supermemory_rs.Storage.Memories.Profiles.{get_value}
pub mod Negation

pub data FilterKind : Type 0 where
  metadata numeric array_contains string_contains : FilterKind

pub data NumericOperator : Type 0 where
  greater less greater_or_equal less_or_equal equal : NumericOperator

pub record FilterCondition : Type 0 where
  pub key : Text
  pub value : Text
  pub kind : FilterKind
  pub numeric_operator : NumericOperator
  pub negate : Bool
  pub ignore_case : Bool

mutual
  pub data FilterExpression : Type 0 where
    and_all : FilterExpressions → FilterExpression
    or_any : FilterExpressions → FilterExpression
    condition : FilterCondition → FilterExpression

  pub data FilterExpressions : Type 0 where
    no_filters : FilterExpressions
    filter : FilterExpression → FilterExpressions → FilterExpressions

-- The methods of `serde_json::Value`, and those of `f64` that the filters use. `as_number` is the text
-- of a number.
pub record Json : Type 1 where
  pub V : Type 0
  pub F : Type 0
  pub as_str : V → Option Text
  pub as_number : V → Option Text
  pub as_bool : V → Option Bool
  pub as_array : V → Option (List V)
  pub as_object : V → Option (Metadata V)
  pub as_f64 : V → Option F
  pub from_str : Text → Option V
  pub parse_f64 : Text → Option F
  pub is_greater : F → F → Bool
  pub is_greater_or_equal : F → F → Bool
  pub is_total_equal : F → F → Bool

unfoldable pub bool_text : Bool → Text
bool_text true = codes "true"
bool_text false = codes "false"

-- `Option::is_some_and`
abbrev pub is_some_and : {A : Type 0} → Option A → (A → Bool) → Bool
is_some_and none test = false
is_some_and (some x) test = test x

-- `Iterator::any`
unfoldable pub any : {A : Type 0} → (A → Bool) → List A → Bool
any test [] = false
any test (x ∷ xs) = test x || any test xs

unfoldable pub equal_text : Unicode → Text → Text → Bool → Bool
equal_text unicode actual wanted ignore_case =
    if ignore_case
    then text_eq (unicode.to_lowercase actual) (unicode.to_lowercase wanted)
    else text_eq actual wanted

unfoldable pub contains_text : Unicode → Text → Text → Bool → Bool
contains_text unicode actual wanted ignore_case =
    if ignore_case
    then contains (unicode.to_lowercase actual) (unicode.to_lowercase wanted)
    else contains actual wanted

module _ (json : Json) (unicode : Unicode) where
  unfoldable pub comparable_text : json.V → Option Text
  unfolding bool_text
  comparable_text value = elim (json.as_str value) [
    | some text ↦ some text
    | none ↦ elim (json.as_number value) [
      | some text ↦ some text
      | none ↦ elim (json.as_bool value) [ some b ↦ some (bool_text b) | none ↦ none ]
    ]
  ]

  unfoldable pub compare_numbers : NumericOperator → json.F → json.F → Bool
  compare_numbers greater actual wanted = json.is_greater actual wanted
  compare_numbers less actual wanted = json.is_greater wanted actual
  compare_numbers greater_or_equal actual wanted = json.is_greater_or_equal actual wanted
  compare_numbers less_or_equal actual wanted = json.is_greater_or_equal wanted actual
  compare_numbers equal actual wanted = json.is_total_equal actual wanted

  unfoldable pub is_equal_to : FilterCondition → json.V → Bool
  unfolding comparable_text equal_text
  is_equal_to c value =
      is_some_and (comparable_text value)
        (λ actual. equal_text unicode actual c.value c.ignore_case)

  unfoldable pub matches_kind : FilterKind → FilterCondition → json.V → Bool
  unfolding is_equal_to comparable_text contains_text any compare_numbers
  matches_kind metadata c value = is_equal_to c value
  matches_kind string_contains c value =
      is_some_and (comparable_text value)
        (λ actual. contains_text unicode actual c.value c.ignore_case)
  matches_kind array_contains c value =
      is_some_and (json.as_array value) (λ values. any (is_equal_to c) values)
  matches_kind numeric c value = is_some_and (json.as_f64 value) (λ actual.
      is_some_and (json.parse_f64 c.value)
        (λ wanted. compare_numbers c.numeric_operator actual wanted))

  unfoldable pub matches_condition : FilterCondition → json.V → Bool
  unfolding matches_kind
  matches_condition c value = matches_kind c.kind c value

  -- `matched != condition.negate`
  unfoldable pub matches_here : FilterCondition → Metadata json.V → Bool
  unfolding get_value matches_condition
  matches_here c entries =
      let matched = is_some_and (get_value c.key entries) (λ value. matches_condition c value) in
      if c.negate then not matched else matched

  unfoldable mutual
    unfolding matches_here

    pub matches_filter : FilterExpression → Metadata json.V → Bool
    matches_filter (and_all filters) entries = matches_all filters entries
    matches_filter (or_any filters) entries = matches_any filters entries
    matches_filter (condition c) entries = matches_here c entries

    pub matches_all : FilterExpressions → Metadata json.V → Bool
    matches_all no_filters entries = true
    matches_all (filter f fs) entries = matches_filter f entries && matches_all fs entries

    pub matches_any : FilterExpressions → Metadata json.V → Bool
    matches_any no_filters entries = false
    matches_any (filter f fs) entries = matches_filter f entries || matches_any fs entries
