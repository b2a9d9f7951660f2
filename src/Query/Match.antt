-- ===== src/Query/Match.antt =====
-- core/query/helper.go, `evaluateQueryFilter` and `evaluateGroup`: what a filter says of one record.
-- The evaluation of a single condition and of a text search are arguments.
use Prim.Native.String.{String}
use go_anansi.Prelude.{Bool, true, none, some, List, [], ◌∷◌}
use go_anansi.Prelude.Result.{Result, ok, err, ◌>>=◌}
use go_anansi.Logical.{LogicalError, invalid_operator, evaluate}
use go_anansi.Query.{
  TextSearchQuery, FilterValue, no_condition, condition, no_group, group, QueryFilter, query_filter,
  Filters, no_filters, and_filter, FilterPtr, no_filter, filter,
}

-- How single conditions and text searches are evaluated on the record at hand.
pub record Oracle : Type 0 where
  pub test : String → String → FilterValue → Result LogicalError Bool
  pub search : TextSearchQuery → Result LogicalError Bool

module _ (w : Oracle) where
  unfoldable mutual
    pub evaluate_query_filter : QueryFilter → Result LogicalError Bool
    evaluate_query_filter (query_filter (condition name operator v) g t) = w.test name operator v
    evaluate_query_filter (query_filter no_condition (group operator conditions) t) =
        evaluate_conditions_of conditions >>= λ results. evaluate operator results
    evaluate_query_filter (query_filter no_condition no_group (some s)) = w.search s
    evaluate_query_filter (query_filter no_condition no_group none) = err invalid_operator

    pub evaluate_conditions_of : Filters → Result LogicalError (List Bool)
    evaluate_conditions_of no_filters = ok []
    evaluate_conditions_of (and_filter f fs) = do
      r ← evaluate_query_filter f
      rs ← evaluate_conditions_of fs
      ok (r ∷ rs)

  -- `Match` and `Filter` pass every record where there is no filter.
  unfoldable pub matches : FilterPtr → Result LogicalError Bool
  unfolding evaluate_query_filter
  matches no_filter = ok true
  matches (filter f) = evaluate_query_filter f
