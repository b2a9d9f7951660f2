-- ===== src/Query/Partition/Whole.antt =====
-- The split of a whole query by `Partition` of core/query/partitioner.go.
use Prim.Native.String.{String}
use go_anansi.Prelude.{Bool, true, false, ◌||◌, ◌&&◌, ◌≡◌, refl, sym, ap, ◌∙◌, arith}
use go_anansi.Prelude.{none, some, List, [], ◌∷◌}
use go_anansi.Prelude.Result.{ok, ◌>>=◌, bind-ok, ok-injective}
use go_anansi.Query.{
  QueryFilter, FilterPtr, filter, ProjectionFields, no_projected, projected, ProjectionPtr,
  no_projection, projection, no_pagination, Query, query_of, filters_of, projection_of,
  pagination_of, sort_of, distinct_of,
}
use go_anansi.Query.Depends.{Dependencies, contains, collect_dependencies, collect_from_projection}
use go_anansi.Query.Depends.Laws.{names_query, names_filter, contains-collect_dependencies}
use go_anansi.Query.Depends.Projection.{names_projection, contains-collect_from_projection}
use go_anansi.Query.Depends.Rows.{IsRowOf, matches_reads}
use go_anansi.Query.Match.{Oracle, evaluate_query_filter, matches}
use go_anansi.Query.Partition.Leaves.{IsSplittable}
use go_anansi.Query.Partition.Correct.{partition_filter-matches}
use go_anansi.Query.Partition.{
  Capabilities, partition, partition_filters, partition_filter, partition_sort,
  partition_pagination, partition_joins, partition_aggregations, partition_union,
  supports_pagination, augment_projection, add_dependencies, included,
}

abbrev pub is_raw : Query → Bool
is_raw (query_of t f pr s l p j d a u h none) = false
is_raw (query_of t f pr s l p j d a u h (some raw)) = true

-- the names of the included fields of a projection
abbrev pub include_names : ProjectionFields → List String
include_names no_projected = []
include_names (projected name alias nested rest) = name ∷ include_names rest

abbrev pub projection_names : ProjectionPtr → List String
projection_names no_projection = []
projection_names (projection fields excluded items) = include_names fields

include_names-included : (deps : Dependencies) → include_names (included deps) ≡ deps
unfolding included
include_names-included [] = refl
include_names-included (d ∷ ds) = ap (λ (l : List String). d ∷ l) (include_names-included ds)

names_filters_of :
    (x : String) (q : Query) → names_filter x (filters_of q) ≡ true → names_query x q ≡ true
unfolding filters_of
names_filters_of x (query_of t f pr s l p j d a u h r) named = ground (arith, named)

module _ (c : Capabilities) where
  -- What the parts of a query that is not raw hold.
  pub record IsSplit (q : Query) (r : Query × Query) : Type 0 where
    pub filters : partition_filters c (filters_of q) ≡ ok (filters_of r.0, filters_of r.1)
    pub sort : partition_sort c (sort_of q) ≡ (sort_of r.0, sort_of r.1)
    pub page : partition_pagination c (pagination_of q) ≡ (pagination_of r.0, pagination_of r.1)
    pub distinct : (distinct_of r.0 ≡ none) × (distinct_of r.1 ≡ none)
    pub no_post_projection : projection_of r.1 ≡ no_projection
    pub fetched :
        projection_names (projection_of r.0)
        ≡ collect_from_projection (projection_of q) (collect_dependencies r.1 [])

  pub partition-IsSplit :
      (q : Query) (r : Query × Query) → is_raw q ≡ false → partition c q ≡ ok r → IsSplit q r
  unfolding partition augment_projection add_dependencies filters_of sort_of pagination_of
      distinct_of projection_of
  partition-IsSplit (query_of t f pr s l p j d a u h (some raw)) r n e = cc
  partition-IsSplit (query_of t f pr s l p j d a u h none) r n e =
      let (fs, fe, e1) = bind-ok (partition_filters c f) _ e in
      let (js, je, e2) = bind-ok (partition_joins c j) _ e1 in
      let (gs, ge, e3) = bind-ok (partition_aggregations c a) _ e2 in
      let (us, ue, e4) = bind-ok (partition_union c u) _ e3 in
      rw (← ok-injective _ r e4) (record {
        filters = fe;
        sort = refl;
        page = refl;
        distinct = (refl, refl);
        no_post_projection = refl;
        fetched = include_names-included _;
      })

  fetches_lem :
      (q : Query) (db post : Query) (x : String)
      → is_raw q ≡ false
      → partition c q ≡ ok (db, post)
      → contains (projection_names (projection_of db)) x
        ≡ (names_projection x (projection_of q) || names_query x post)
  unfolding contains
  fetches_lem q db post x n e = rw (partition-IsSplit q (db, post) n e).fetched (
      ground (
        arith,
        contains-collect_from_projection x (projection_of q) (collect_dependencies post []),
        contains-collect_dependencies x post [],
      ))

  -- The database part of a query that is not raw includes a field in its projection exactly when
  -- the original projection reads it or the in-memory part names it outside its text searches,
  -- subqueries and pagination: in a condition of a filter, a join or an aggregation, as what an
  -- aggregation is of or grouped by, or as a sort key. The filter of the in-memory part gives the
  -- same on a row with the included fields as on the whole record, if a condition that names none
  -- but included fields does, and a text search does.
  pub partition-fetches :
      (q : Query) (db post : Query) (x : String) (record_at row : Oracle)
      → is_raw q ≡ false
      → partition c q ≡ ok (db, post)
      → IsRowOf record_at row (contains (projection_names (projection_of db)))
      → (contains (projection_names (projection_of db)) x
          ≡ (names_projection x (projection_of q) || names_query x post))
        × (matches record_at (filters_of post) ≡ matches row (filters_of post))
  partition-fetches q db post x record_at row n e v = (
    fetches_lem q db post x n e,
    matches_reads record_at row (contains (projection_names (projection_of db))) v (filters_of post)
        (λ y named. ground (arith, fetches_lem q db post y n e, names_filters_of y post named)),
  )

  -- Neither part of a query that is not raw keeps its distinct clause, whatever that was.
  pub partition-drops_distinct :
      (q : Query) (db post : Query)
      → is_raw q ≡ false
      → partition c q ≡ ok (db, post)
      → (distinct_of db ≡ none) × (distinct_of post ≡ none)
  partition-drops_distinct q db post n e = (partition-IsSplit q (db, post) n e).distinct

  -- A page of a type that the database supports goes to the database part of a query that is not
  -- raw and not to the in-memory part, also where the in-memory part has a filter.
  pub partition-page_first :
      (q : Query) (db post : Query) (g : QueryFilter)
      → is_raw q ≡ false
      → partition c q ≡ ok (db, post)
      → supports_pagination c (pagination_of q) ≡ true
      → filters_of post ≡ filter g
      → (pagination_of db ≡ pagination_of q) × (pagination_of post ≡ no_pagination)
  unfolding partition_pagination
  partition-page_first q db post g n e s left =
      let page = (partition-IsSplit q (db, post) n e).page in ground (arith, page)

  module _ (w : Oracle) where
    -- For a query that is not raw, whose filter has no subquery conditions and has, below every
    -- operator other than AND and OR, leaves on one side only: on a record on which the filter
    -- evaluates without an error, the filters of the two parts evaluate without an error and their
    -- conjunction is the value of the filter.
    pub partition-matches :
        (q : Query) (db post : Query) (f : QueryFilter) (b : Bool)
        → is_raw q ≡ false
        → partition c q ≡ ok (db, post)
        → filters_of q ≡ filter f
        → IsSplittable c f
        → evaluate_query_filter w f ≡ ok b
        → (matches w (filters_of db) >>= λ x. matches w (filters_of post) >>= λ y. ok (x && y))
          ≡ ok b
    unfolding partition_filters
    partition-matches q db post f b n e fe s h =
        let (d, p, de, both) = partition_filter-matches w c f b s h in
        let split : partition_filter c f ≡ ok (filters_of db, filters_of post) =
          rw fe at (partition-IsSplit q (db, post) n e).filters in
        let same = ok-injective _ _ (sym de ∙ split) in
        rw
          (
            ← ap (λ (r : FilterPtr × FilterPtr). r.0) same,
            ← ap (λ (r : FilterPtr × FilterPtr). r.1) same,
          )
          both
