-- ===== src/Query/Depends/Laws.antt =====
-- The dependencies collected by core/query/partitioner.go are exactly the fields that the filter,
-- the value or the query names outside text searches, subqueries and the pagination, whatever was
-- collected before. The in-memory evaluation of a text search is an error that reads no field.
use Prim.Native.String.{String}
use text.Mathlib.Text.{◌==◌ as str_eq}
use text.Mathlib.TextEquality.{eq_iff}
use go_anansi.Prelude.{Bool, false, ◌||◌, ◌≡◌, refl, Option, none, some, List, [], ◌∷◌}
use go_anansi.Prelude.{arith}
use go_anansi.Query.{
  FieldReference, SortConfiguration, FilterValue, filter_value, ArrayVal, no_array, array, Values,
  no_values, value, CallVal, no_call, call, Condition, no_condition, condition, Group, no_group,
  group, QueryFilter, query_filter, Filters, no_filters, and_filter, FilterPtr, no_filter, filter,
  Joins, no_joins, join, Aggregations, no_aggregations, aggregation, Query, query_of,
}
use go_anansi.Query.Depends.{
  Dependencies, contains, add, add_reference, collect_from_filter_value, collect_from_array,
  collect_from_call, collect_from_values, collect_from_condition, collect_from_query_filter,
  collect_from_group, collect_from_filters, collect_from_filter, add_all, collect_from_joins,
  collect_from_aggregations, collect_from_sort, collect_dependencies,
}

-- Whether a part of a query names the field `x`.
module _ (x : String) where
  abbrev pub names_reference : Option FieldReference → Bool
  names_reference none = false
  names_reference (some r) = str_eq r.name x

  abbrev mutual
    pub names_value : FilterValue → Bool
    names_value (filter_value literal arr ref sub fn) =
        names_reference ref || (names_call fn || names_array arr)

    pub names_array : ArrayVal → Bool
    names_array no_array = false
    names_array (array items) = names_values items

    pub names_call : CallVal → Bool
    names_call no_call = false
    names_call (call function arguments) = names_values arguments

    pub names_values : Values → Bool
    names_values no_values = false
    names_values (value v vs) = names_value v || names_values vs

  abbrev pub names_condition : Condition → Bool
  names_condition no_condition = false
  names_condition (condition name operator v) = str_eq name x || names_value v

  abbrev mutual
    pub names_query_filter : QueryFilter → Bool
    names_query_filter (query_filter cond grp text) = names_condition cond || names_group grp

    pub names_group : Group → Bool
    names_group no_group = false
    names_group (group operator conditions) = names_filters conditions

    pub names_filters : Filters → Bool
    names_filters no_filters = false
    names_filters (and_filter f fs) = names_query_filter f || names_filters fs

  abbrev pub names_filter : FilterPtr → Bool
  names_filter no_filter = false
  names_filter (filter f) = names_query_filter f

  abbrev pub names_joins : Joins → Bool
  names_joins no_joins = false
  names_joins (join type target on shape rest) = names_filter on || names_joins rest

  abbrev pub names_list : List String → Bool
  names_list [] = false
  names_list (name ∷ names) = str_eq name x || names_list names

  abbrev pub names_aggregations : Aggregations → Bool
  names_aggregations no_aggregations = false
  names_aggregations (aggregation type name alias groups f rest) =
      str_eq name x || (names_list groups || (names_filter f || names_aggregations rest))

  abbrev pub names_sort : List SortConfiguration → Bool
  names_sort [] = false
  names_sort (s ∷ rest) = str_eq s.field x || names_sort rest

  -- outside a subquery, the projection and the pagination
  abbrev pub names_query : Query → Bool
  names_query (query_of t filters pr sort l p joins d aggregations u h r) =
      names_filter filters
      || (names_joins joins || (names_aggregations aggregations || names_sort sort))

  pub contains-add :
      (name : String) (deps : Dependencies)
      → contains (add name deps) x ≡ (str_eq name x || contains deps x)
  unfolding add contains
  contains-add name deps = ground (arith, eq_iff name x)

  reference_lem :
      (r : Option FieldReference) (deps : Dependencies)
      → contains (add_reference r deps) x ≡ (names_reference r || contains deps x)
  unfolding add_reference
  reference_lem none deps = refl
  reference_lem (some r) deps = contains-add r.name deps

  mutual
    unfolding collect_from_filter_value

    pub value_lem :
        (v : FilterValue) (deps : Dependencies)
        → contains (collect_from_filter_value v deps) x ≡ (names_value v || contains deps x)
    value_lem (filter_value literal arr ref sub fn) deps = ground (
      arith,
      array_lem arr (collect_from_call fn (add_reference ref deps)),
      call_lem fn (add_reference ref deps),
      reference_lem ref deps,
    )

    array_lem :
        (a : ArrayVal) (deps : Dependencies)
        → contains (collect_from_array a deps) x ≡ (names_array a || contains deps x)
    array_lem no_array deps = refl
    array_lem (array items) deps = values_lem items deps

    pub call_lem :
        (f : CallVal) (deps : Dependencies)
        → contains (collect_from_call f deps) x ≡ (names_call f || contains deps x)
    call_lem no_call deps = refl
    call_lem (call function arguments) deps = values_lem arguments deps

    values_lem :
        (vs : Values) (deps : Dependencies)
        → contains (collect_from_values vs deps) x ≡ (names_values vs || contains deps x)
    values_lem no_values deps = refl
    values_lem (value v vs) deps =
        ground (arith, values_lem vs (collect_from_filter_value v deps), value_lem v deps)

  condition_lem :
      (c : Condition) (deps : Dependencies)
      → contains (collect_from_condition c deps) x ≡ (names_condition c || contains deps x)
  unfolding collect_from_condition
  condition_lem no_condition deps = refl
  condition_lem (condition name operator v) deps =
      ground (arith, value_lem v (add name deps), contains-add name deps)

  mutual
    unfolding collect_from_query_filter

    pub query_filter_lem :
        (f : QueryFilter) (deps : Dependencies)
        → contains (collect_from_query_filter f deps) x ≡ (names_query_filter f || contains deps x)
    query_filter_lem (query_filter cond grp text) deps =
        ground (arith, group_lem grp (collect_from_condition cond deps), condition_lem cond deps)

    group_lem :
        (g : Group) (deps : Dependencies)
        → contains (collect_from_group g deps) x ≡ (names_group g || contains deps x)
    group_lem no_group deps = refl
    group_lem (group operator conditions) deps = filters_lem conditions deps

    filters_lem :
        (fs : Filters) (deps : Dependencies)
        → contains (collect_from_filters fs deps) x ≡ (names_filters fs || contains deps x)
    filters_lem no_filters deps = refl
    filters_lem (and_filter f fs) deps =
        ground (arith, filters_lem fs (collect_from_query_filter f deps), query_filter_lem f deps)

  filter_lem :
      (f : FilterPtr) (deps : Dependencies)
      → contains (collect_from_filter f deps) x ≡ (names_filter f || contains deps x)
  unfolding collect_from_filter
  filter_lem no_filter deps = refl
  filter_lem (filter f) deps = query_filter_lem f deps

  joins_lem :
      (j : Joins) (deps : Dependencies)
      → contains (collect_from_joins j deps) x ≡ (names_joins j || contains deps x)
  unfolding collect_from_joins
  joins_lem no_joins deps = refl
  joins_lem (join type target on shape rest) deps =
      ground (arith, joins_lem rest (collect_from_filter on deps), filter_lem on deps)

  list_lem :
      (names : List String) (deps : Dependencies)
      → contains (add_all names deps) x ≡ (names_list names || contains deps x)
  unfolding add_all
  list_lem [] deps = refl
  list_lem (name ∷ names) deps =
      ground (arith, list_lem names (add name deps), contains-add name deps)

  aggregations_lem :
      (a : Aggregations) (deps : Dependencies)
      → contains (collect_from_aggregations a deps) x ≡ (names_aggregations a || contains deps x)
  unfolding collect_from_aggregations
  aggregations_lem no_aggregations deps = refl
  aggregations_lem (aggregation type name alias groups f rest) deps = ground (
    arith,
    aggregations_lem rest (collect_from_filter f (add_all groups (add name deps))),
    filter_lem f (add_all groups (add name deps)),
    list_lem groups (add name deps),
    contains-add name deps,
  )

  sort_lem :
      (s : List SortConfiguration) (deps : Dependencies)
      → contains (collect_from_sort s deps) x ≡ (names_sort s || contains deps x)
  unfolding collect_from_sort
  sort_lem [] deps = refl
  sort_lem (s ∷ rest) deps =
      ground (arith, sort_lem rest (add s.field deps), contains-add s.field deps)

  -- The names that a query adds to what is collected are those of its filters, joins, aggregations
  -- and sort keys, and no others.
  pub contains-collect_dependencies :
      (q : Query) (deps : Dependencies)
      → contains (collect_dependencies q deps) x ≡ (names_query q || contains deps x)
  unfolding collect_dependencies
  contains-collect_dependencies (query_of t filters pr sort l p joins d aggregations u h r) deps =
      let after_filters = collect_from_filter filters deps in
      let after_joins = collect_from_joins joins after_filters in
      ground (
        arith,
        sort_lem sort (collect_from_aggregations aggregations after_joins),
        aggregations_lem aggregations after_joins,
        joins_lem joins after_filters,
        filter_lem filters deps,
      )
