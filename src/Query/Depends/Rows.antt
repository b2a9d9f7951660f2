-- ===== src/Query/Depends/Rows.antt =====
-- core/query/helper.go, `evaluateQueryFilter`, on a row that holds only the fields that
-- core/query/partitioner.go collects: the row is enough.
use Prim.Native.String.{String}
use go_anansi.Prelude.{Bool, true, ◌||◌, ◌≡◌, refl, ap, none, some, List, arith}
use go_anansi.Prelude.Result.{Result, ◌>>=◌}
use go_anansi.Logical.{LogicalError, evaluate}
use go_anansi.Query.{
  TextSearchQuery, FilterValue, no_condition, condition, no_group, group, QueryFilter, query_filter,
  Filters, no_filters, and_filter, FilterPtr, no_filter, filter,
}
use go_anansi.Query.Match.{Oracle, evaluate_query_filter, evaluate_conditions_of, matches}
use go_anansi.Query.Depends.Laws.{names_condition, names_query_filter, names_filters, names_filter}

-- On `row` a condition whose fields are all fetched evaluates as on the whole record, and a text
-- search gives the same, which it does where it is an error on every record.
pub record IsRowOf (record_at row : Oracle) (fetched : String → Bool) : Type 0 where
  pub tests :
      (name operator : String) (v : FilterValue)
      → ((x : String) → names_condition x (condition name operator v) ≡ true → fetched x ≡ true)
      → record_at.test name operator v ≡ row.test name operator v
  pub searches : (s : TextSearchQuery) → record_at.search s ≡ row.search s

or-left : (a b : Bool) → a ≡ true → (a || b) ≡ true
or-left a b h = ground (arith, h)

or-right : (a b : Bool) → b ≡ true → (a || b) ≡ true
or-right a b h = ground (arith, h)

module _ (record_at row : Oracle) (fetched : String → Bool)
    (v : IsRowOf record_at row fetched) where
  mutual
    unfolding evaluate_query_filter

    filter_reads :
        (f : QueryFilter)
        → ((x : String) → names_query_filter x f ≡ true → fetched x ≡ true)
        → evaluate_query_filter record_at f ≡ evaluate_query_filter row f
    filter_reads (query_filter (condition name operator w) g t) h =
        v.tests name operator w
          (λ x named. h x (or-left (names_condition x (condition name operator w)) _ named))
    filter_reads (query_filter no_condition (group operator conditions) t) h =
        ap (λ (r : Result LogicalError (List Bool)). r >>= λ results. evaluate operator results)
          (filters_read conditions h)
    filter_reads (query_filter no_condition no_group (some s)) h = v.searches s
    filter_reads (query_filter no_condition no_group none) h = refl

    filters_read :
        (fs : Filters)
        → ((x : String) → names_filters x fs ≡ true → fetched x ≡ true)
        → evaluate_conditions_of record_at fs ≡ evaluate_conditions_of row fs
    filters_read no_filters h = refl
    filters_read (and_filter f fs) h =
        let first = filter_reads f (λ x named. h x (or-left (names_query_filter x f) _ named)) in
        let rest = filters_read fs (λ x named. h x (or-right (names_query_filter x f) _ named)) in
        rw (first, rest) refl

  pub matches_reads :
      (f : FilterPtr)
      → ((x : String) → names_filter x f ≡ true → fetched x ≡ true)
      → matches record_at f ≡ matches row f
  unfolding matches
  matches_reads no_filter h = refl
  matches_reads (filter f) h = filter_reads f h
