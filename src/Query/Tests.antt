-- ===== src/Query/Tests.antt =====
-- Runs of core/query/partitioner.go against a database that compares by "eq" and pages by offset,
-- and its theorems at concrete queries.
use Prim.Native.String.{String}
use text.Mathlib.Text.{◌==◌ as str_eq}
use go_anansi.Prelude.{true, false, ◌&&◌, ◌||◌, ◌≡◌, inl, refl, none, some, [], if◌then◌else◌}
use go_anansi.Prelude.{arith}
use go_anansi.Prelude.Int.{pos}
use go_anansi.Prelude.Result.{ok, err, ◌>>=◌}
use go_anansi.Cache.Items.Laws.{str_refl}
use go_anansi.Logical.{invalid_operator, logical_and, logical_or, logical_nand, evaluate}
use go_anansi.Query.{
  FilterValue, filter_value, no_array, no_subquery, no_call, condition, no_group, QueryFilter,
  query_filter, no_filter, filter, no_projected, projected, no_projection, projection, no_computed,
  PaginationPtr, no_pagination, pagination, no_cursor, no_joins, no_aggregations, no_union, Query,
  query_of, filters_of, projection_of, pagination_of,
}
use go_anansi.Query.Depends.{
  contains, add, add_reference, collect_from_filter_value, collect_from_condition,
  collect_from_query_filter, collect_from_filter, collect_from_joins, collect_from_aggregations,
  collect_from_sort, collect_dependencies, collect_from_computed, collect_from_include,
  collect_from_projection,
}
use go_anansi.Query.Depends.Laws.{names_query}
use go_anansi.Query.Depends.Projection.{names_projection}
use go_anansi.Query.Depends.Rows.{IsRowOf}
use go_anansi.Query.Match.{Oracle, evaluate_query_filter, matches}
use go_anansi.Query.Partition.{
  Capabilities, partition, partition_filter, partition_group, partition_sort, partition_pagination,
  supports_pagination, is_condition_supported, add_dependencies, augment_projection,
}
use go_anansi.Query.Partition.Whole.{projection_names, partition-fetches, partition-matches}
use go_anansi.Query.Partition.Mixed.{only, pair, partition_filter-mixed}

abbrev simple_database : Capabilities
simple_database = record {
  comparison_operators = λ o. str_eq o "eq";
  text_search_types = λ t. false;
  join_types = λ t. false;
  aggregation_functions = λ t. false;
  pagination_types = λ t. str_eq t "offset";
  sorts_expressions = true;
}

-- A record on which exactly the conditions on "name" hold.
abbrev named : Oracle
named = record { test = λ n o v. ok (str_eq n "name"); search = λ s. ok true }

abbrev nothing : FilterValue
nothing =
    filter_value
      (record { string_val = none; number_val = none; bool_val = none; object_val = none }) no_array
      none no_subquery no_call

abbrev leaf_of : String → String → QueryFilter
leaf_of name operator = query_filter (condition name operator nothing) no_group none

abbrev both_sides : QueryFilter
both_sides = pair logical_and (leaf_of "name" "eq") (leaf_of "age" "like")

abbrev first_page : PaginationPtr
first_page = pagination "offset" (pos 10) none no_cursor [] none

abbrev sample : Query
sample =
    query_of none (filter both_sides)
      (projection (projected "email" none no_projection no_projected) no_projected no_computed) []
      none first_page no_joins (some (record { is_distinct = some true; fields = [] }))
      no_aggregations no_union [] none

abbrev sample_db : Query
sample_db =
    query_of none (filter (only logical_and (leaf_of "name" "eq")))
      (projection
        (projected "email" none no_projection (projected "age" none no_projection no_projected))
        no_projected no_computed)
      [] none first_page no_joins none no_aggregations no_union [] none

abbrev sample_post : Query
sample_post =
    query_of none (filter (only logical_and (leaf_of "age" "like"))) no_projection [] none
      no_pagination no_joins none no_aggregations no_union [] none

run_partition : partition simple_database sample ≡ ok (sample_db, sample_post)
unfolding partition partition_group partition_sort partition_pagination is_condition_supported
    augment_projection add_dependencies contains add add_reference collect_from_filter_value
    collect_from_condition collect_from_query_filter collect_from_filter collect_from_joins
    collect_from_aggregations collect_from_sort collect_dependencies collect_from_computed
    collect_from_include collect_from_projection
run_partition = refl

-- An OR of the same leaves stays whole in memory.
mixed_or :
    let f = pair logical_or (leaf_of "name" "eq") (leaf_of "age" "like") in
    partition_filter simple_database f ≡ ok (no_filter, filter f)
unfolding partition_filter partition_group is_condition_supported
mixed_or = refl

sample_value : evaluate_query_filter named both_sides ≡ ok false
unfolding evaluate_query_filter evaluate
sample_value = refl

sample_filters : filters_of sample ≡ filter both_sides
unfolding filters_of
sample_filters = refl

sample_left : filters_of sample_post ≡ filter (only logical_and (leaf_of "age" "like"))
unfolding filters_of
sample_left = refl

sample_pages : supports_pagination simple_database (pagination_of sample) ≡ true
unfolding supports_pagination pagination_of
sample_pages = refl

eq_leaf :
    partition_filter simple_database (leaf_of "name" "eq")
    ≡ ok (filter (leaf_of "name" "eq"), no_filter)
unfolding partition_filter is_condition_supported
eq_leaf = refl

like_leaf :
    partition_filter simple_database (leaf_of "age" "like")
    ≡ ok (no_filter, filter (leaf_of "age" "like"))
unfolding partition_filter is_condition_supported
like_leaf = refl

name_holds : evaluate_query_filter named (leaf_of "name" "eq") ≡ ok true
unfolding evaluate_query_filter
name_holds = refl

age_fails : evaluate_query_filter named (leaf_of "age" "like") ≡ ok false
unfolding evaluate_query_filter
age_fails = refl

partition-matches_example :
    (matches named (filters_of sample_db) >>= λ x.
    matches named (filters_of sample_post) >>= λ y. ok (x && y))
    ≡ ok false
partition-matches_example =
    partition-matches simple_database named sample sample_db sample_post both_sides false refl
      run_partition sample_filters (omega arith) sample_value

-- The row has no field but those that are fetched: a condition on another one fails there.
abbrev on_record : Oracle
on_record = record {
  test = λ name operator v. if str_eq name "name" then ok true else ok (str_eq name "age");
  search = λ s. err invalid_operator;
}

abbrev on_row : Oracle
on_row = record {
  test = λ name operator v.
      if contains (projection_names (projection_of sample_db)) name
      then on_record.test name operator v
      else ok false;
  search = λ s. err invalid_operator;
}

on_row-IsRowOf : IsRowOf on_record on_row (contains (projection_names (projection_of sample_db)))
on_row-IsRowOf = record {
  tests = λ name operator v reads.
      let there : contains (projection_names (projection_of sample_db)) name ≡ true =
        reads name (ground (arith, str_refl name)) in
      rw there refl;
  searches = λ s. refl;
}

partition-fetches_example :
    (contains (projection_names (projection_of sample_db)) "age"
      ≡ (names_projection "age" (projection_of sample) || names_query "age" sample_post))
    × (matches on_record (filters_of sample_post) ≡ matches on_row (filters_of sample_post))
partition-fetches_example =
    partition-fetches simple_database sample sample_db sample_post "age" on_record on_row refl
      run_partition on_row-IsRowOf

abbrev mixed_nand : QueryFilter
mixed_nand = pair logical_nand (leaf_of "name" "eq") (leaf_of "age" "like")

partition_filter-mixed_example :
    (evaluate_query_filter named mixed_nand ≡ ok true)
    × (partition_filter simple_database mixed_nand
        ≡ ok (
          filter (only logical_nand (leaf_of "name" "eq")),
          filter (only logical_nand (leaf_of "age" "like")),
        ))
    × ((matches named (filter (only logical_nand (leaf_of "name" "eq"))) >>= λ a.
          matches named (filter (only logical_nand (leaf_of "age" "like"))) >>= λ b. ok (a && b))
        ≡ ok false)
partition_filter-mixed_example =
    partition_filter-mixed simple_database named logical_nand (leaf_of "name" "eq")
      (leaf_of "age" "like") (inl refl) eq_leaf like_leaf name_holds age_fails
