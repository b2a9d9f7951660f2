-- ===== src/Query.antt =====
-- core/query/dsl.go: the query language. A Go pointer to a struct of the block is a data type with
-- a `no_…` constructor for nil, and a slice of such structs is a list type of its own. Numbers in
-- literals are the bit patterns of `float64`; `int` options are integers. `Shape` and
-- `DocumentPool`, which the engine sets after partitioning, are left out.
pub mod Partition
pub mod Depends
pub mod Match
pub mod Join
pub mod Page
pub mod Tests
use Prim.Native.String.{String}
use go_anansi.Prelude.{ℕ, Bool, true, false, ◌&&◌, Option, none, some, List, [], ◌∷◌}
use go_anansi.Prelude.Int.{ℤ}
use go_anansi.Logical.{LogicalOperator}

-- `any`, as encoding/json gives it
mutual
  pub data Json : Type 0 where
    null : Json
    boolean : Bool → Json
    number : ℕ → Json
    text : String → Json
    array_of : JsonItems → Json
    object_of : JsonFields → Json

  pub data JsonItems : Type 0 where
    no_items : JsonItems
    item : Json → JsonItems → JsonItems

  pub data JsonFields : Type 0 where
    no_fields : JsonFields
    field : String → Json → JsonFields → JsonFields

pub record FieldReference : Type 0 where
  pub name : String
  pub type : String

pub record TextSearchQuery : Type 0 where
  pub query : String
  pub fields : List String
  pub type : String
  pub operator : String
  pub case_sensitive : Option Bool

pub record SortConfiguration : Type 0 where
  pub field : String
  pub direction : String

-- The schema pointer is the number of the schema that it points to.
pub record QueryTarget : Type 0 where
  pub name : String
  pub alias : Option String
  pub schema : Option ℕ

pub record QueryDistinctConfig : Type 0 where
  pub is_distinct : Option Bool
  pub fields : List String

pub record RawQueryTarget : Type 0 where
  pub collection : String
  pub version : String

pub record RawQuery : Type 0 where
  pub template : String
  pub options : JsonFields
  pub collections : List (String × RawQueryTarget)
  pub parameters : List Json

-- The four pointers to plain data of a `FilterValue`; a nil object is `none`.
pub record Literal : Type 0 where
  pub string_val : Option String
  pub number_val : Option ℕ
  pub bool_val : Option Bool
  pub object_val : Option JsonFields

mutual
  -- literal, array, field reference, subquery and function call, each of them optional
  pub data FilterValue : Type 0 where
    filter_value : Literal → ArrayVal → Option FieldReference → SubqueryVal → CallVal → FilterValue

  pub data ArrayVal : Type 0 where
    no_array : ArrayVal
    array : Values → ArrayVal

  pub data Values : Type 0 where
    no_values : Values
    value : FilterValue → Values → Values

  pub data SubqueryVal : Type 0 where
    no_subquery : SubqueryVal
    subquery : String → Query → SubqueryVal

  pub data CallVal : Type 0 where
    no_call : CallVal
    call : String → Values → CallVal

  -- field, operator and value
  pub data Condition : Type 0 where
    no_condition : Condition
    condition : String → String → FilterValue → Condition

  pub data Group : Type 0 where
    no_group : Group
    group : LogicalOperator → Filters → Group

  pub data QueryFilter : Type 0 where
    query_filter : Condition → Group → Option TextSearchQuery → QueryFilter

  pub data Filters : Type 0 where
    no_filters : Filters
    and_filter : QueryFilter → Filters → Filters

  pub data FilterPtr : Type 0 where
    no_filter : FilterPtr
    filter : QueryFilter → FilterPtr

  -- name, alias and nested projection
  pub data ProjectionFields : Type 0 where
    no_projected : ProjectionFields
    projected : String → Option String → ProjectionPtr → ProjectionFields → ProjectionFields

  -- include, exclude and computed
  pub data ProjectionPtr : Type 0 where
    no_projection : ProjectionPtr
    projection : ProjectionFields → ProjectionFields → ComputedItems → ProjectionPtr

  pub data ComputedItems : Type 0 where
    no_computed : ComputedItems
    computed : ComputedField → CaseVal → ComputedItems → ComputedItems

  pub data ComputedField : Type 0 where
    no_expression : ComputedField
    expression : String → CallVal → String → ComputedField

  pub data CaseVal : Type 0 where
    no_case : CaseVal
    case_of : String → CaseConditions → FilterValue → String → CaseVal

  pub data CaseConditions : Type 0 where
    no_cases : CaseConditions
    when_then : QueryFilter → FilterValue → CaseConditions → CaseConditions

  pub data CursorValue : Type 0 where
    no_cursor_value : CursorValue
    cursor_value : FilterValue → CursorValue

  pub data PaginationCursor : Type 0 where
    no_cursor : PaginationCursor
    cursor : Option String → CursorValue → PaginationCursor

  -- type, limit, offset, cursor, order and include_total
  pub data PaginationPtr : Type 0 where
    no_pagination : PaginationPtr
    pagination :
        String
        → ℤ
        → Option ℤ
        → PaginationCursor
        → List SortConfiguration
        → Option Bool
        → PaginationPtr

  -- type, target, condition and projection
  pub data Joins : Type 0 where
    no_joins : Joins
    join : String → QueryTarget → FilterPtr → ProjectionPtr → Joins → Joins

  -- type, field, alias, groups and filter
  pub data Aggregations : Type 0 where
    no_aggregations : Aggregations
    aggregation :
        String → String → Option String → List String → FilterPtr → Aggregations → Aggregations

  pub data Union : Type 0 where
    no_union : Union
    union : Queries → String → Union

  pub data Queries : Type 0 where
    no_queries : Queries
    and_query : Query → Queries → Queries

  -- target, filters, projection, sort, limit, pagination, joins, distinct, aggregations, union,
  -- hints and raw
  pub data Query : Type 0 where
    query_of :
        Option QueryTarget
        → FilterPtr
        → ProjectionPtr
        → List SortConfiguration
        → Option ℤ
        → PaginationPtr
        → Joins
        → Option QueryDistinctConfig
        → Aggregations
        → Union
        → List JsonFields
        → Option RawQuery
        → Query

abbrev pub empty_query : Query
empty_query =
    query_of none no_filter no_projection [] none no_pagination no_joins none no_aggregations
      no_union [] none

unfoldable pub filters_of : Query → FilterPtr
filters_of (query_of t f pr s l p j d a u h r) = f

unfoldable pub projection_of : Query → ProjectionPtr
projection_of (query_of t f pr s l p j d a u h r) = pr

unfoldable pub pagination_of : Query → PaginationPtr
pagination_of (query_of t f pr s l p j d a u h r) = p

unfoldable pub sort_of : Query → List SortConfiguration
sort_of (query_of t f pr s l p j d a u h r) = s

unfoldable pub distinct_of : Query → Option QueryDistinctConfig
distinct_of (query_of t f pr s l p j d a u h r) = d

-- `IsEmpty`, which does not look at the target, the limit or a raw query
unfoldable pub is_empty : Query → Bool
is_empty
      (query_of t no_filter no_projection [] l no_pagination no_joins none no_aggregations no_union
        [] r) =
    true
is_empty _ = false
