-- ===== src/Query/Depends/Projection.antt =====
-- The dependencies that core/query/partitioner.go collects from the projection of the original
-- query: its included fields and what its computed items read.
use Prim.Native.String.{String}
use text.Mathlib.Text.{◌==◌ as str_eq}
use go_anansi.Prelude.{Bool, false, ◌||◌, ◌≡◌, refl, arith}
use go_anansi.Query.{
  ProjectionFields, no_projected, projected, ProjectionPtr, no_projection, projection,
  ComputedItems, no_computed, computed, ComputedField, no_expression, expression, CaseVal, no_case,
  case_of, CaseConditions, no_cases, when_then,
}
use go_anansi.Query.Depends.{
  Dependencies, contains, add, collect_from_filter_value, collect_from_query_filter,
  collect_from_cases, collect_from_expression, collect_from_case, collect_from_computed,
  collect_from_include, collect_from_projection,
}
use go_anansi.Query.Depends.Laws.{
  names_value, names_call, names_query_filter, contains-add, value_lem, call_lem, query_filter_lem,
}

module _ (x : String) where
  abbrev pub names_include : ProjectionFields → Bool
  names_include no_projected = false
  names_include (projected name alias nested rest) = str_eq name x || names_include rest

  abbrev pub names_cases : CaseConditions → Bool
  names_cases no_cases = false
  names_cases (when_then test result rest) =
      names_query_filter x test || (names_value x result || names_cases rest)

  abbrev pub names_expression : ComputedField → Bool
  names_expression no_expression = false
  names_expression (expression type fn alias) = names_call x fn

  abbrev pub names_case : CaseVal → Bool
  names_case no_case = false
  names_case (case_of type conditions otherwise alias) =
      names_cases conditions || names_value x otherwise

  abbrev pub names_computed : ComputedItems → Bool
  names_computed no_computed = false
  names_computed (computed field case rest) =
      names_expression field || (names_case case || names_computed rest)

  abbrev pub names_projection : ProjectionPtr → Bool
  names_projection no_projection = false
  names_projection (projection fields excluded items) = names_include fields || names_computed items

  include_lem :
      (f : ProjectionFields) (deps : Dependencies)
      → contains (collect_from_include f deps) x ≡ (names_include f || contains deps x)
  unfolding collect_from_include
  include_lem no_projected deps = refl
  include_lem (projected name alias nested rest) deps =
      ground (arith, include_lem rest (add name deps), contains-add x name deps)

  cases_lem :
      (c : CaseConditions) (deps : Dependencies)
      → contains (collect_from_cases c deps) x ≡ (names_cases c || contains deps x)
  unfolding collect_from_cases
  cases_lem no_cases deps = refl
  cases_lem (when_then test result rest) deps =
      let after_test = collect_from_query_filter test deps in
      ground (
        arith,
        cases_lem rest (collect_from_filter_value result after_test),
        value_lem x result after_test,
        query_filter_lem x test deps,
      )

  expression_lem :
      (e : ComputedField) (deps : Dependencies)
      → contains (collect_from_expression e deps) x ≡ (names_expression e || contains deps x)
  unfolding collect_from_expression
  expression_lem no_expression deps = refl
  expression_lem (expression type fn alias) deps = call_lem x fn deps

  case_lem :
      (c : CaseVal) (deps : Dependencies)
      → contains (collect_from_case c deps) x ≡ (names_case c || contains deps x)
  unfolding collect_from_case
  case_lem no_case deps = refl
  case_lem (case_of type conditions otherwise alias) deps =
      ground (
        arith,
        value_lem x otherwise (collect_from_cases conditions deps),
        cases_lem conditions deps,
      )

  computed_lem :
      (c : ComputedItems) (deps : Dependencies)
      → contains (collect_from_computed c deps) x ≡ (names_computed c || contains deps x)
  unfolding collect_from_computed
  computed_lem no_computed deps = refl
  computed_lem (computed field case rest) deps =
      let after_field = collect_from_expression field deps in
      ground (
        arith,
        computed_lem rest (collect_from_case case after_field),
        case_lem case after_field,
        expression_lem field deps,
      )

  pub contains-collect_from_projection :
      (p : ProjectionPtr) (deps : Dependencies)
      → contains (collect_from_projection p deps) x ≡ (names_projection p || contains deps x)
  unfolding collect_from_projection
  contains-collect_from_projection no_projection deps = refl
  contains-collect_from_projection (projection fields excluded items) deps =
      ground (arith, computed_lem items (collect_from_include fields deps), include_lem fields deps)
