-- ===== src/Query/Partition.antt =====
-- core/query/partitioner.go, the first half: a query is split into the part that the database runs
-- and the part that runs in memory on the rows that it returns. The sets of the database's
-- capabilities are their membership tests.
pub mod Leaves
pub mod Correct
mod Sides
pub mod Whole
pub mod Mixed
use Prim.Native.String.{String}
use text.Mathlib.Text.{◌==◌ as str_eq}
use go_anansi.Prelude.{Bool, true, false, not, ◌&&◌, Option, none, some, List, [], ◌∷◌}
use go_anansi.Prelude.{if◌then◌else◌}
use go_anansi.Prelude.Result.{Result, ok, err, ◌>>=◌}
use go_anansi.Logical.{LogicalOperator, logical_or}
use go_anansi.Query.{
  SortConfiguration, RawQuery, QueryTarget, TextSearchQuery, filter_value, SubqueryVal, no_subquery,
  subquery, Condition, no_condition, condition, no_group, group, QueryFilter, query_filter, Filters,
  no_filters, and_filter, FilterPtr, no_filter, filter, ProjectionFields, no_projected, projected,
  ProjectionPtr, no_projection, projection, no_computed, PaginationPtr, no_pagination, pagination,
  Joins, no_joins, join, Aggregations, no_aggregations, aggregation, Union, no_union, union,
  Queries, no_queries, and_query, Query, query_of, empty_query, is_empty,
}
use go_anansi.Query.Depends.{Dependencies, collect_dependencies, collect_from_projection}

pub record Capabilities : Type 0 where
  pub comparison_operators : String → Bool
  pub text_search_types : String → Bool
  pub join_types : String → Bool
  pub aggregation_functions : String → Bool
  pub pagination_types : String → Bool
  pub sorts_expressions : Bool

pub data QueryError : Type 0 where
  invalid_filter_structure conflicting_projection : QueryError

-- a database part and an in-memory part
abbrev pub Parts : Type 0 → Type 0
Parts A = Result QueryError (A × A)

abbrev is_no_filter : FilterPtr → Bool
is_no_filter no_filter = true
is_no_filter _ = false

abbrev pub cons_filter : FilterPtr → Filters → Filters
cons_filter no_filter fs = fs
cons_filter (filter f) fs = and_filter f fs

abbrev is_no_filters : Filters → Bool
is_no_filters no_filters = true
is_no_filters _ = false

abbrev is_or : LogicalOperator → Bool
is_or logical_or = true
is_or _ = false

abbrev pub group_filter : LogicalOperator → Filters → FilterPtr
group_filter operator no_filters = no_filter
group_filter operator (and_filter f fs) =
    filter (query_filter no_condition (group operator (and_filter f fs)) none)

-- a projected field for each name, with no alias and nothing nested
unfoldable pub included : Dependencies → ProjectionFields
included [] = no_projected
included (name ∷ names) = projected name none no_projection (included names)

unfoldable pub append_projected : ProjectionFields → ProjectionFields → ProjectionFields
append_projected no_projected fields = fields
append_projected (projected name alias nested rest) fields =
    projected name alias nested (append_projected rest fields)

-- the last lines of `augmentProjection`, on the projection that the database part has so far
unfoldable pub add_dependencies : ProjectionPtr → Dependencies → Result QueryError ProjectionPtr
unfolding included append_projected
add_dependencies no_projection deps = ok (projection (included deps) no_projected no_computed)
add_dependencies (projection fields no_projected items) deps =
    ok (projection (append_projected fields (included deps)) no_projected items)
add_dependencies (projection fields (projected n a t rest) items) deps = err conflicting_projection

unfoldable pub augment_projection : ProjectionPtr → Query → Query → Result QueryError Query
augment_projection original (query_of t f pr s l p j d a u h r) post_query =
    add_dependencies pr (collect_from_projection original (collect_dependencies post_query []))
    >>= λ pr'. ok (query_of t f pr' s l p j d a u h r)

-- a union without queries is dropped
abbrev pub union_part : Queries → String → Option Queries → Union × Union
union_part no_queries type dbs = (no_union, no_union)
union_part (and_query q qs) type none = (no_union, union (and_query q qs) type)
union_part (and_query q qs) type (some dbs) = (union dbs type, no_union)

abbrev pub add_query : Query → Option Queries → Option Queries
add_query db none = none
add_query db (some dbs) = some (and_query db dbs)

module _ (c : Capabilities) where
  unfoldable pub is_condition_supported : String → Bool
  is_condition_supported operator = c.comparison_operators operator

  unfoldable pub partition_sort :
      List SortConfiguration → List SortConfiguration × List SortConfiguration
  partition_sort sorts = if c.sorts_expressions then (sorts, []) else ([], sorts)

  unfoldable pub supports_pagination : PaginationPtr → Bool
  supports_pagination no_pagination = true
  supports_pagination (pagination type l o cur ord total) =
      if str_eq type "" then true else c.pagination_types type

  unfoldable pub partition_pagination : PaginationPtr → PaginationPtr × PaginationPtr
  unfolding supports_pagination
  partition_pagination p = if supports_pagination p then (p, no_pagination) else (no_pagination, p)

  -- a leaf goes to the side that can evaluate it
  abbrev pub leaf : Bool → QueryFilter → Parts FilterPtr
  leaf true f = ok (filter f, no_filter)
  leaf false f = ok (no_filter, filter f)

  -- the end of the group case: an OR with conditions on both sides stays whole in memory
  unfoldable pub partition_group :
      LogicalOperator → QueryFilter → Filters × Filters → FilterPtr × FilterPtr
  partition_group operator whole (db, post) =
      if is_or operator && (not (is_no_filters db) && not (is_no_filters post))
      then (no_filter, filter whole)
      else (group_filter operator db, group_filter operator post)

  -- a join or an aggregation whose condition leaves something to memory goes there whole
  abbrev pub join_part :
      String
      → QueryTarget
      → FilterPtr
      → ProjectionPtr
      → FilterPtr × FilterPtr
      → Joins × Joins
      → Joins × Joins
  join_part type target on pr (db, no_filter) (dbs, posts) = (join type target db pr dbs, posts)
  join_part type target on pr (db, filter f) (dbs, posts) = (dbs, join type target on pr posts)

  abbrev pub aggregation_part :
      String
      → String
      → Option String
      → List String
      → FilterPtr
      → FilterPtr × FilterPtr
      → Aggregations × Aggregations
      → Aggregations × Aggregations
  aggregation_part type name alias groups f (db, no_filter) (dbs, posts) =
      (aggregation type name alias groups db dbs, posts)
  aggregation_part type name alias groups f (db, filter g) (dbs, posts) =
      (dbs, aggregation type name alias groups f posts)

  -- the subquery of a condition: replaced by its database part where nothing of it is left
  abbrev pub subquery_after : String → Query → Parts Query → SubqueryVal
  subquery_after type rest (err e) = subquery type rest
  subquery_after type rest (ok (db, post)) =
      if is_empty post then subquery type db else subquery type rest

  -- the queries of a union up to the first that needs memory
  abbrev pub queries_after : Query → Queries → Queries → Parts Query → Queries
  queries_after q untouched rest (err e) = and_query q untouched
  queries_after q untouched rest (ok (db, post)) =
      if is_empty post then and_query q rest else and_query q untouched

  unfoldable mutual
    pub partition : Query → Parts Query
    partition (query_of t f pr s l p j d a u h (some raw)) = ok (
      query_of t no_filter no_projection [] none no_pagination no_joins none no_aggregations
          no_union [] (some raw),
      empty_query,
    )
    partition (query_of t f pr s l p j d a u h none) = do
      (db_filters, post_filters) ← partition_filters f
      (db_joins, post_joins) ← partition_joins j
      (db_aggregations, post_aggregations) ← partition_aggregations a
      (db_union, post_union) ← partition_union u
      let (db_sort, post_sort) = partition_sort s
      let (db_page, post_page) = partition_pagination p
      let post =
          query_of t post_filters no_projection post_sort none post_page post_joins none
            post_aggregations post_union [] none
      db ←
          augment_projection pr
            (query_of t db_filters no_projection db_sort none db_page db_joins none db_aggregations
              db_union [] none)
            post
      ok (db, post)

    pub partition_filters : FilterPtr → Parts FilterPtr
    partition_filters no_filter = ok (no_filter, no_filter)
    partition_filters (filter f) = partition_filter f

    pub partition_filter : QueryFilter → Parts FilterPtr
    partition_filter
          (query_filter
            (condition name operator (filter_value lit arr ref (subquery type q) fn))
            g
            t) =
        partition q >>= λ (db, post).
        if is_empty post
        then leaf (is_condition_supported operator) (
            query_filter (condition name operator (filter_value lit arr ref (subquery type db) fn))
              no_group none)
        else leaf false (
            query_filter
              (condition name operator
                (filter_value lit arr ref (subquery type (written_query q)) fn))
              g t)
    partition_filter
          (query_filter (condition name operator (filter_value lit arr ref no_subquery fn)) g t) =
        leaf (is_condition_supported operator)
          (query_filter (condition name operator (filter_value lit arr ref no_subquery fn)) g t)
    partition_filter (query_filter no_condition (group operator conditions) t) =
        partition_conditions conditions >>= λ parts. ok (
          partition_group operator
            (query_filter no_condition (group operator (written_filters conditions)) t) parts)
    partition_filter (query_filter no_condition no_group (some search)) =
        leaf (c.text_search_types search.type) (query_filter no_condition no_group (some search))
    partition_filter (query_filter no_condition no_group none) = err invalid_filter_structure

    pub partition_conditions : Filters → Parts Filters
    partition_conditions no_filters = ok (no_filters, no_filters)
    partition_conditions (and_filter f fs) = do
      (db, post) ← partition_filter f
      (dbs, posts) ← partition_conditions fs
      ok (cons_filter db dbs, cons_filter post posts)

    pub partition_joins : Joins → Parts Joins
    partition_joins no_joins = ok (no_joins, no_joins)
    partition_joins (join type target on pr rest) =
        let others = partition_joins rest in
        if c.join_types type
        then (do
          parts ← partition_filters on
          (dbs, posts) ← others
          ok (join_part type target (written_filter_ptr on) pr parts (dbs, posts)))
        else (do (dbs, posts) ← others; ok (dbs, join type target on pr posts))

    pub partition_aggregations : Aggregations → Parts Aggregations
    partition_aggregations no_aggregations = ok (no_aggregations, no_aggregations)
    partition_aggregations (aggregation type name alias groups f rest) =
        let others = partition_aggregations rest in
        if c.aggregation_functions type
        then (do
          parts ← partition_filters f
          (dbs, posts) ← others
          ok (aggregation_part type name alias groups (written_filter_ptr f) parts (dbs, posts)))
        else (do (dbs, posts) ← others; ok (dbs, aggregation type name alias groups f posts))

    pub partition_union : Union → Parts Union
    partition_union no_union = ok (no_union, no_union)
    partition_union (union queries type) =
        partition_queries queries >>= λ dbs. ok (union_part (written_queries queries) type dbs)

    -- `none` from the first query on that needs memory
    pub partition_queries : Queries → Result QueryError (Option Queries)
    partition_queries no_queries = ok (some no_queries)
    partition_queries (and_query q qs) =
        let others = partition_queries qs in
        partition q >>= λ (db, post).
        if is_empty post then (others >>= λ dbs. ok (add_query db dbs)) else ok none

    -- What a filter holds after it was partitioned: the database part of a subquery is written
    -- through the pointer to it, which a filter that is kept whole shares. Where partitioning fails
    -- this is not looked at.
    pub written_filter : QueryFilter → QueryFilter
    written_filter
          (query_filter
            (condition name operator (filter_value lit arr ref (subquery type q) fn))
            g
            t) =
        query_filter
          (condition name operator
            (filter_value lit arr ref (subquery_after type (written_query q) (partition q)) fn))
          g t
    written_filter
          (query_filter (condition name operator (filter_value lit arr ref no_subquery fn)) g t) =
        query_filter (condition name operator (filter_value lit arr ref no_subquery fn)) g t
    written_filter (query_filter no_condition (group operator conditions) t) =
        query_filter no_condition (group operator (written_filters conditions)) t
    written_filter (query_filter no_condition no_group t) = query_filter no_condition no_group t

    pub written_filters : Filters → Filters
    written_filters no_filters = no_filters
    written_filters (and_filter f fs) = and_filter (written_filter f) (written_filters fs)

    pub written_filter_ptr : FilterPtr → FilterPtr
    written_filter_ptr no_filter = no_filter
    written_filter_ptr (filter f) = filter (written_filter f)

    pub written_joins : Joins → Joins
    written_joins no_joins = no_joins
    written_joins (join type target on pr rest) =
        join type target (if c.join_types type then written_filter_ptr on else on) pr
          (written_joins rest)

    pub written_aggregations : Aggregations → Aggregations
    written_aggregations no_aggregations = no_aggregations
    written_aggregations (aggregation type name alias groups f rest) =
        aggregation type name alias groups
          (if c.aggregation_functions type then written_filter_ptr f else f)
          (written_aggregations rest)

    pub written_union : Union → Union
    written_union no_union = no_union
    written_union (union queries type) = union (written_queries queries) type

    pub written_queries : Queries → Queries
    written_queries no_queries = no_queries
    written_queries (and_query q qs) =
        queries_after (written_query q) qs (written_queries qs) (partition q)

    -- the same for a query
    pub written_query : Query → Query
    written_query (query_of t f pr s l p j d a u h (some raw)) =
        query_of t f pr s l p j d a u h (some raw)
    written_query (query_of t f pr s l p j d a u h none) =
        query_of t (written_filter_ptr f) pr s l p (written_joins j) d (written_aggregations a)
          (written_union u) h none
