-- ===== src/Query/Depends.antt =====
-- core/query/partitioner.go, the second half: the fields that the in-memory part of a query reads,
-- which the projection of the database part must fetch. Go's map of names is a list without
-- repetition; its iteration order, which Go leaves open, is the order of first insertion.
pub mod Laws
pub mod Projection
pub mod Rows
use Prim.Native.String.{String}
use text.Mathlib.Text.{◌==◌ as str_eq}
use go_anansi.Prelude.{Bool, true, false, Option, none, some, List, [], ◌∷◌, if◌then◌else◌}
use go_anansi.Query.{
  FieldReference, TextSearchQuery, SortConfiguration, FilterValue, filter_value, ArrayVal, no_array,
  array, Values, no_values, value, SubqueryVal, CallVal, no_call, call, Condition, no_condition,
  condition, Group, no_group, group, QueryFilter, query_filter, Filters, no_filters, and_filter,
  FilterPtr, no_filter, filter, ProjectionFields, no_projected, projected, ProjectionPtr,
  no_projection, projection, ComputedItems, no_computed, computed, ComputedField, no_expression,
  expression, CaseVal, no_case, case_of, CaseConditions, no_cases, when_then, Joins, no_joins, join,
  Aggregations, no_aggregations, aggregation, Query, query_of,
}

abbrev pub Dependencies : Type 0
Dependencies = List String

unfoldable pub contains : Dependencies → String → Bool
contains [] name = false
contains (x ∷ xs) name = if str_eq x name then true else contains xs name

-- `dependencies[name] = struct{}{}`
unfoldable pub add : String → Dependencies → Dependencies
add name deps = if contains deps name then deps else name ∷ deps

unfoldable pub add_reference : Option FieldReference → Dependencies → Dependencies
add_reference none deps = deps
add_reference (some r) deps = add r.name deps

unfoldable mutual
  pub collect_from_filter_value : FilterValue → Dependencies → Dependencies
  collect_from_filter_value (filter_value literal arr ref sub fn) deps =
      collect_from_array arr (collect_from_call fn (add_reference ref deps))

  pub collect_from_array : ArrayVal → Dependencies → Dependencies
  collect_from_array no_array deps = deps
  collect_from_array (array items) deps = collect_from_values items deps

  pub collect_from_call : CallVal → Dependencies → Dependencies
  collect_from_call no_call deps = deps
  collect_from_call (call function arguments) deps = collect_from_values arguments deps

  pub collect_from_values : Values → Dependencies → Dependencies
  collect_from_values no_values deps = deps
  collect_from_values (value v vs) deps = collect_from_values vs (collect_from_filter_value v deps)

unfoldable pub collect_from_condition : Condition → Dependencies → Dependencies
collect_from_condition no_condition deps = deps
collect_from_condition (condition name operator v) deps =
    collect_from_filter_value v (add name deps)

unfoldable mutual
  pub collect_from_query_filter : QueryFilter → Dependencies → Dependencies
  collect_from_query_filter (query_filter cond grp text) deps =
      collect_from_group grp (collect_from_condition cond deps)

  pub collect_from_group : Group → Dependencies → Dependencies
  collect_from_group no_group deps = deps
  collect_from_group (group operator conditions) deps = collect_from_filters conditions deps

  pub collect_from_filters : Filters → Dependencies → Dependencies
  collect_from_filters no_filters deps = deps
  collect_from_filters (and_filter f fs) deps =
      collect_from_filters fs (collect_from_query_filter f deps)

unfoldable pub collect_from_filter : FilterPtr → Dependencies → Dependencies
collect_from_filter no_filter deps = deps
collect_from_filter (filter f) deps = collect_from_query_filter f deps

unfoldable pub add_all : List String → Dependencies → Dependencies
add_all [] deps = deps
add_all (name ∷ names) deps = add_all names (add name deps)

unfoldable pub collect_from_joins : Joins → Dependencies → Dependencies
collect_from_joins no_joins deps = deps
collect_from_joins (join type target on shape rest) deps =
    collect_from_joins rest (collect_from_filter on deps)

unfoldable pub collect_from_aggregations : Aggregations → Dependencies → Dependencies
collect_from_aggregations no_aggregations deps = deps
collect_from_aggregations (aggregation type name alias groups f rest) deps =
    collect_from_aggregations rest (collect_from_filter f (add_all groups (add name deps)))

unfoldable pub collect_from_sort : List SortConfiguration → Dependencies → Dependencies
collect_from_sort [] deps = deps
collect_from_sort (s ∷ rest) deps = collect_from_sort rest (add s.field deps)

unfoldable pub collect_dependencies : Query → Dependencies → Dependencies
collect_dependencies (query_of t filters pr sort l p joins d aggregations u h r) deps =
    collect_from_sort sort (
      collect_from_aggregations aggregations
        (collect_from_joins joins (collect_from_filter filters deps)))

unfoldable pub collect_from_cases : CaseConditions → Dependencies → Dependencies
collect_from_cases no_cases deps = deps
collect_from_cases (when_then test result rest) deps =
    collect_from_cases rest (collect_from_filter_value result (collect_from_query_filter test deps))

unfoldable pub collect_from_expression : ComputedField → Dependencies → Dependencies
collect_from_expression no_expression deps = deps
collect_from_expression (expression type fn alias) deps = collect_from_call fn deps

unfoldable pub collect_from_case : CaseVal → Dependencies → Dependencies
collect_from_case no_case deps = deps
collect_from_case (case_of type conditions otherwise alias) deps =
    collect_from_filter_value otherwise (collect_from_cases conditions deps)

unfoldable pub collect_from_computed : ComputedItems → Dependencies → Dependencies
collect_from_computed no_computed deps = deps
collect_from_computed (computed field case rest) deps =
    collect_from_computed rest (collect_from_case case (collect_from_expression field deps))

unfoldable pub collect_from_include : ProjectionFields → Dependencies → Dependencies
collect_from_include no_projected deps = deps
collect_from_include (projected name alias nested rest) deps =
    collect_from_include rest (add name deps)

unfoldable pub collect_from_projection : ProjectionPtr → Dependencies → Dependencies
collect_from_projection no_projection deps = deps
collect_from_projection (projection included excluded items) deps =
    collect_from_computed items (collect_from_include included deps)
