-- ===== src/Storage/Filters/Negation.antt =====
-- Negating a filter of crates/storage/src/lib.rs.
use supermemory_rs.Prelude.{not, true, false, ◌↔◌, ◌≡◌, refl, arith}
use supermemory_rs.Storage.Tables.{Metadata}
use supermemory_rs.Storage.Memories.Dedup.{Unicode}
use supermemory_rs.Storage.Filters.{
  FilterExpression, FilterExpressions, and_all, or_any, condition, no_filters, filter, Json,
  matches_condition, matches_here, matches_filter, matches_all, matches_any,
}

-- De Morgan: the filter that asks for the opposite, by the flag of its conditions.
unfoldable mutual
  pub negated : FilterExpression → FilterExpression
  negated (and_all filters) = or_any (negated_each filters)
  negated (or_any filters) = and_all (negated_each filters)
  negated (condition c) = condition (record c { negate = not c.negate })

  pub negated_each : FilterExpressions → FilterExpressions
  negated_each no_filters = no_filters
  negated_each (filter f fs) = filter (negated f) (negated_each fs)

module _ (json : Json) (unicode : Unicode) (entries : Metadata json.V) where
  mutual
    unfolding matches_filter negated matches_here matches_condition

    matches_filter-negated :
        (f : FilterExpression)
        → matches_filter json unicode (negated f) entries
          ≡ not (matches_filter json unicode f entries)
    matches_filter-negated (and_all fs) = matches_any-negated fs
    matches_filter-negated (or_any fs) = matches_all-negated fs
    matches_filter-negated (condition c) = grind arith

    matches_any-negated :
        (fs : FilterExpressions)
        → matches_any json unicode (negated_each fs) entries
          ≡ not (matches_all json unicode fs entries)
    matches_any-negated no_filters = refl
    matches_any-negated (filter f fs) =
        ground (arith, matches_filter-negated f, matches_any-negated fs)

    matches_all-negated :
        (fs : FilterExpressions)
        → matches_all json unicode (negated_each fs) entries
          ≡ not (matches_any json unicode fs entries)
    matches_all-negated no_filters = refl
    matches_all-negated (filter f fs) =
        ground (arith, matches_filter-negated f, matches_all-negated fs)

  -- Metadata matches a filter exactly when it does not match the negated one: the one with AND and OR
  -- exchanged and the flag of every condition turned, also where a key is missing or a value is of
  -- another kind.
  pub matches_filter-excludes :
      (f : FilterExpression)
      → (matches_filter json unicode f entries ≡ true)
        ↔ (matches_filter json unicode (negated f) entries ≡ false)
  matches_filter-excludes f = ground (arith, matches_filter-negated f)
