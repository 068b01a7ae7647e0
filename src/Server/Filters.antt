-- ===== src/Server/Filters.antt =====
-- `parse_filter` of crates/server/src/lib.rs: the filters of a search request. An error is named for
-- the message that it carries.
use supermemory_rs.Prelude.{
  ℕ, zero, suc, ◌+◌, ◌-◌, ◌^◌, Text, codes, text_eq, trim, is_empty, Bool, true, false, ◌||◌, List,
  [], ◌∷◌, length, Option, none, some, Result, ok, err, ltb, if◌then◌else◌,
}
use supermemory_rs.Storage.Tables.{Metadata}
use supermemory_rs.Storage.Memories.Profiles.{get_value}
use supermemory_rs.Storage.Filters.{
  FilterKind, metadata, numeric, array_contains, string_contains, NumericOperator, greater, less,
  greater_or_equal, less_or_equal, equal, FilterCondition, FilterExpression, FilterExpressions,
  and_all, or_any, condition, no_filters, filter, Json,
}
pub mod Bounds

pub data FilterError : Type 0 where
  invalid_json too_complex invalid_structure not_arrays too_many : FilterError
  key_not_string value_not_string invalid_type invalid_number invalid_operator : FilterError
  invalid_boolean : FilterError

-- `Result::and_then`, and `?`
infixl 1 ◌>>=◌
abbrev pub ◌>>=◌ :
    {A B : Type 0} → Result FilterError A → (A → Result FilterError B) → Result FilterError B
err e >>= f = err e
ok x >>= f = f x

-- `usize::saturating_add`
unfoldable pub saturating_add : ℕ → ℕ → ℕ
saturating_add a b = if ltb (a + b) (2 ^ 64) then a + b else 2 ^ 64 - 1

unfoldable pub kind_of : Text → Result FilterError FilterKind
kind_of t =
    if text_eq t (codes "metadata")
    then ok metadata
    else if text_eq t (codes "numeric")
    then ok numeric
    else if text_eq t (codes "array_contains")
    then ok array_contains
    else if text_eq t (codes "string_contains")
    then ok string_contains
    else err invalid_type

unfoldable pub operator_of : Text → Result FilterError NumericOperator
operator_of t =
    if text_eq t (codes ">")
    then ok greater
    else if text_eq t (codes "<")
    then ok less
    else if text_eq t (codes ">=")
    then ok greater_or_equal
    else if text_eq t (codes "<=")
    then ok less_or_equal
    else if text_eq t (codes "=")
    then ok equal
    else err invalid_operator

-- `Option::ok_or`
abbrev pub ok_or : {A : Type 0} → FilterError → Option A → Result FilterError A
ok_or e none = err e
ok_or e (some x) = ok x

-- `unwrap_or`
abbrev pub text_or : Text → Option Text → Text
text_or default none = default
text_or default (some t) = t

abbrev pub and_then : {A B : Type 0} → Option A → (A → Option B) → Option B
and_then none f = none
and_then (some x) f = f x

abbrev pub or_else : {A : Type 0} → Option A → Option A → Option A
or_else none other = other
or_else (some x) other = some x

abbrev pub is_some : {A : Type 0} → Option A → Bool
is_some none = false
is_some (some x) = true

module _ (json : Json) where
  unfoldable pub boolean_text : Option Text → Result FilterError Bool
  boolean_text none = err invalid_boolean
  boolean_text (some t) =
      if text_eq t (codes "true")
      then ok true
      else if text_eq t (codes "false")
      then ok false
      else err invalid_boolean

  unfoldable pub boolean_field : Option json.V → Result FilterError Bool
  unfolding boolean_text
  boolean_field none = ok false
  boolean_field (some value) = elim (json.as_bool value) [
    | some b ↦ ok b
    | none ↦ boolean_text (json.as_str value)
  ]

  unfoldable pub field_text : Text → Metadata json.V → Option Text
  unfolding get_value
  field_text key object = and_then (get_value key object) json.as_str

  -- A numeric condition whose value is no number.
  unfoldable pub is_bad_number : FilterKind → Text → Bool
  is_bad_number numeric value =
      is_empty (trim value) || (if is_some (json.parse_f64 value) then false else true)
  is_bad_number metadata value = false
  is_bad_number array_contains value = false
  is_bad_number string_contains value = false

  unfoldable pub check_number : FilterKind → Text → Result FilterError FilterKind
  unfolding is_bad_number
  check_number kind value = if is_bad_number kind value then err invalid_number else ok kind

  -- The fields of a condition, in the order in which they are read.
  unfoldable pub parse_condition : Metadata json.V → Result FilterError FilterCondition
  unfolding field_text kind_of check_number operator_of boolean_field get_value
  parse_condition object = do
    key ← ok_or key_not_string (field_text (codes "key") object)
    value ← ok_or value_not_string (field_text (codes "value") object)
    read ← kind_of (text_or (codes "metadata") (field_text (codes "filterType") object))
    kind ← check_number read value
    operator ← operator_of (text_or (codes "=") (field_text (codes "numericOperator") object))
    negate ← boolean_field (get_value (codes "negate") object)
    ignore_case ← boolean_field (get_value (codes "ignoreCase") object)
    ok (record {
      key = key;
      value = value;
      kind = kind;
      numeric_operator = operator;
      negate = negate;
      ignore_case = ignore_case;
    })

  -- A condition, with the count of conditions after it.
  unfoldable pub parse_leaf : Metadata json.V → ℕ → Result FilterError (FilterExpression × ℕ)
  unfolding saturating_add parse_condition
  parse_leaf object conditions =
      let counted = saturating_add conditions 1 in
      if ltb 200 counted
      then err too_many
      else (parse_condition object >>= λ c. ok (condition c, counted))

  -- The values of an array in turn, each by `parse`, up to the first that fails.
  unfoldable pub parse_each :
      (json.V → ℕ → Result FilterError (FilterExpression × ℕ))
      → List json.V
      → ℕ
      → Result FilterError (FilterExpressions × ℕ)
  parse_each parse [] conditions = ok (no_filters, conditions)
  parse_each parse (value ∷ values) conditions = parse value conditions >>= λ first.
      parse_each parse values first.1 >>= λ rest. ok (filter first.0 rest.0, rest.1)

  unfoldable pub group : Metadata json.V → FilterExpressions → FilterExpression
  unfolding get_value
  group object nested =
      if is_some (get_value (codes "AND") object) then and_all nested else or_any nested

  -- The array of AND or of OR: its length counts, and so does each condition in it.
  unfoldable pub parse_group :
      (json.V → ℕ → Result FilterError (FilterExpression × ℕ))
      → Metadata json.V
      → List json.V
      → ℕ
      → Result FilterError (FilterExpression × ℕ)
  unfolding saturating_add parse_each group
  parse_group parse object values conditions =
      let counted = saturating_add conditions (length values) in
      if ltb 200 (length values) || ltb 200 counted
      then err too_many
      else (parse_each parse values counted >>= λ nested. ok (group object nested.0, nested.1))

  -- `levels` is nine less the depth, so that no level is left where the depth is over eight.
  unfoldable pub parse_filter_at : ℕ → json.V → ℕ → Result FilterError (FilterExpression × ℕ)
  unfolding get_value parse_group parse_leaf
  parse_filter_at zero value conditions = err too_complex
  parse_filter_at (suc levels) value conditions =
      ok_or invalid_structure (json.as_object value) >>= λ object.
      elim (or_else (get_value (codes "AND") object) (get_value (codes "OR") object)) [
        | none ↦ parse_leaf object conditions
        | some array ↦ ok_or not_arrays (json.as_array array) >>= λ values.
            parse_group (parse_filter_at levels) object values conditions
      ]

  -- A text is parsed as JSON first.
  unfoldable pub parsed_value : json.V → Result FilterError json.V
  parsed_value value = elim (json.as_str value) [
    | none ↦ ok value
    | some t ↦ ok_or invalid_json (json.from_str t)
  ]

  unfoldable pub parse_filter : json.V → Result FilterError FilterExpression
  unfolding parsed_value parse_filter_at
  parse_filter value =
      parsed_value value >>= λ parsed. parse_filter_at 9 parsed 0 >>= λ result. ok result.0
