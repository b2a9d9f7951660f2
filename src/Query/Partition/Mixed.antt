-- ===== src/Query/Partition/Mixed.antt =====
-- Groups that core/query/partitioner.go takes apart although their operator does not allow it.
use go_anansi.Prelude.{true, false, ◌&&◌, ◌≡◌, ◌⊎◌, inl, inr, none}
use go_anansi.Prelude.Result.{ok, ◌>>=◌}
use go_anansi.Logical.{LogicalOperator, logical_nand, logical_xor, evaluate}
use go_anansi.Query.{
  no_condition, group, QueryFilter, query_filter, no_filters, and_filter, no_filter, filter,
}
use go_anansi.Query.Match.{Oracle, evaluate_query_filter, matches}
use go_anansi.Query.Partition.{Capabilities, partition_filter, partition_group}

abbrev pub only : LogicalOperator → QueryFilter → QueryFilter
only o x = query_filter no_condition (group o (and_filter x no_filters)) none

abbrev pub pair : LogicalOperator → QueryFilter → QueryFilter → QueryFilter
pair o x y = query_filter no_condition (group o (and_filter x (and_filter y no_filters))) none

module _ (c : Capabilities) (w : Oracle) where
  -- A NAND or XOR of a filter that runs in the database and one that runs in memory is taken apart:
  -- a record for which the first holds and the second does not passes the filter, and the two parts
  -- together reject it.
  pub partition_filter-mixed :
      (o : LogicalOperator) (x y : QueryFilter)
      → (o ≡ logical_nand) ⊎ (o ≡ logical_xor)
      → partition_filter c x ≡ ok (filter x, no_filter)
      → partition_filter c y ≡ ok (no_filter, filter y)
      → evaluate_query_filter w x ≡ ok true
      → evaluate_query_filter w y ≡ ok false
      → (evaluate_query_filter w (pair o x y) ≡ ok true)
        × (partition_filter c (pair o x y) ≡ ok (filter (only o x), filter (only o y)))
        × ((matches w (filter (only o x)) >>= λ a.
              matches w (filter (only o y)) >>= λ b. ok (a && b))
            ≡ ok false)
  unfolding partition_filter partition_group evaluate_query_filter matches evaluate
  partition_filter-mixed o x y (inl e) px py ex ey =
      (rw (e, ex, ey), rw (e, px, py), rw (e, ex, ey))
  partition_filter-mixed o x y (inr e) px py ex ey =
      (rw (e, ex, ey), rw (e, px, py), rw (e, ex, ey))
