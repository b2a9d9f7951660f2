-- ===== src/Query/Partition/Correct.antt =====
-- What the split of a filter by core/query/partitioner.go means for a record: the database part
-- and the in-memory part together say what the filter says.
use go_anansi.Prelude.{Bool, true, false, ◌&&◌, ◌≡◌, ◌⊎◌, inl, inr, refl, ap, ◌∙◌, arith}
use go_anansi.Prelude.{none, some, List}
use go_anansi.Prelude.Result.{ok, ◌>>=◌, bind-ok, ok-injective}
use go_anansi.Logical.{LogicalOperator, logical_and, logical_or}
use go_anansi.Logical.{evaluate}
use go_anansi.Query.{
  filter_value, no_subquery, subquery, no_condition, condition, no_group, group, QueryFilter,
  query_filter, Filters, no_filters, and_filter, FilterPtr, no_filter, filter,
}
use go_anansi.Query.Match.{Oracle, evaluate_query_filter, evaluate_conditions_of, matches}
use go_anansi.Query.Partition.{
  Capabilities, cons_filter, partition_filter, partition_conditions, partition_group, leaf, is_or,
  is_condition_supported, written_filters,
}
use go_anansi.Query.Partition.Leaves.{
  Needs, OnSideAll, IsSplittable, AllSplittable, OnSideAll-partition_conditions,
  written_filters_lem,
}
use go_anansi.Query.Partition.Sides.{
  all, Splits, SplitsAll, SplitsAll-nil, SplitsAll-cons, evaluate-group, evaluate-group_and,
  no_results, and_false, evaluate-and_ok,
}

module _ (w : Oracle) (c : Capabilities) where
  partition_group-Splits :
      (o : LogicalOperator) (whole : QueryFilter) (r : Filters × Filters) (bs : List Bool)
      (b : Bool)
      → SplitsAll w r bs
      → evaluate o bs ≡ ok b
      → evaluate_query_filter w whole ≡ ok b
      → Needs o ((r.0 ≡ no_filters) ⊎ (r.1 ≡ no_filters))
      → Splits w (partition_group c o whole r) b
  unfolding partition_group
  partition_group-Splits o whole (no_filters, no_filters) bs b s e q n =
      absurd (no_results w o s.xs bs s.db_results (s.db_only refl) e)
  partition_group-Splits o whole (and_filter f fs, no_filters) bs b s e q n =
      rw (and_false (is_or o))
        (evaluate-group w o f fs bs b (rw (s.db_only refl) at s.db_results) e)
  partition_group-Splits o whole (no_filters, and_filter f fs) bs b s e q n =
      rw (and_false (is_or o))
        (evaluate-group w o f fs bs b (rw (s.post_only refl) at s.post_results) e)
  partition_group-Splits logical_and whole (and_filter f fs, and_filter h hs) bs b s e q n = (
    all s.xs,
    all s.ys,
    evaluate-group_and w f fs s.xs s.db_results,
    evaluate-group_and w h hs s.ys s.post_results,
    evaluate-and_ok bs b e ∙ s.conjunction,
  )
  partition_group-Splits logical_or whole (and_filter f fs, and_filter h hs) bs b s e q n = q
  partition_group-Splits o whole (and_filter f fs, and_filter h hs) bs b s e q n = elim n [
    | inl empty ↦ cc
    | inr empty ↦ cc
  ]

  leaf-Splits :
      (supported b : Bool) (f : QueryFilter) (r : FilterPtr × FilterPtr)
      → evaluate_query_filter w f ≡ ok b
      → leaf c supported f ≡ ok r
      → Splits w r b
  leaf-Splits true b f r e h = rw (← ok-injective _ r h) e
  leaf-Splits false b f r e h = rw (← ok-injective _ r h) e

  -- below an operator that needs one side, one side is empty
  Needs-empty :
      (o : LogicalOperator) (fs : Filters) (m : Filters × Filters)
      → partition_conditions c fs ≡ ok m
      → OnSideAll c true fs ⊎ OnSideAll c false fs
      → (m.0 ≡ no_filters) ⊎ (m.1 ≡ no_filters)
  Needs-empty o fs m e (inl s) = inr (OnSideAll-partition_conditions c true fs m s e)
  Needs-empty o fs m e (inr s) = inl (OnSideAll-partition_conditions c false fs m s e)

  Needs-map : {P Q : Type 0} (o : LogicalOperator) → (P → Q) → Needs o P → Needs o Q
  Needs-map logical_and f n = tt
  Needs-map logical_or f n = tt
  Needs-map _ f n = f n

  mutual
    unfolding partition_filter is_condition_supported evaluate_query_filter

    filter-Splits :
        (f : QueryFilter) (r : FilterPtr × FilterPtr) (b : Bool)
        → IsSplittable c f
        → partition_filter c f ≡ ok r
        → evaluate_query_filter w f ≡ ok b
        → Splits w r b
    filter-Splits (query_filter (condition n o (filter_value l a v no_subquery fn)) g t) r b s e q =
        leaf-Splits (c.comparison_operators o) b _ r q e
    filter-Splits (query_filter (condition n o (filter_value l a v (subquery y k) fn)) g t) r b s e
          q =
        absurd s
    filter-Splits (query_filter no_condition (group o fs) t) r b s e q =
        let (m, me, re) = bind-ok (partition_conditions c fs) _ e in
        let (bs, be, ev) = bind-ok (evaluate_conditions_of w fs) _ q in
        let whole : evaluate_query_filter w
              (query_filter no_condition (group o (written_filters c fs)) t)
            ≡ ok b =
          ap (λ (k : Filters). evaluate_query_filter w (query_filter no_condition (group o k) t))
            (written_filters_lem c fs s.0)
          ∙ q in
        rw (← ok-injective _ r re) (
          partition_group-Splits o _ m bs b (conditions-SplitsAll fs m bs s.0 me be) ev whole
            (Needs-map o (Needs-empty o fs m me) s.1))
    filter-Splits (query_filter no_condition no_group (some p)) r b s e q =
        leaf-Splits (c.text_search_types p.type) b _ r q e
    filter-Splits (query_filter no_condition no_group none) r b s e q = absurd s

    conditions-SplitsAll :
        (fs : Filters) (r : Filters × Filters) (bs : List Bool)
        → AllSplittable c fs
        → partition_conditions c fs ≡ ok r
        → evaluate_conditions_of w fs ≡ ok bs
        → SplitsAll w r bs
    conditions-SplitsAll no_filters r bs s e q =
        rw (← ok-injective _ r e, ← ok-injective _ bs q) (SplitsAll-nil w)
    conditions-SplitsAll (and_filter f fs) r bs s e q =
        let (m, me, e') = bind-ok (partition_filter c f) _ e in
        let (k, ke, re) = bind-ok (partition_conditions c fs) _ e' in
        let (x, xe, q') = bind-ok (evaluate_query_filter w f) _ q in
        let (xs, xse, be) = bind-ok (evaluate_conditions_of w fs) _ q' in
        rw (← ok-injective _ r re, ← ok-injective _ bs be)
          (SplitsAll-cons w m k x xs (filter-Splits f m x s.0 me xe)
            (conditions-SplitsAll fs k xs s.1 ke xse))

  leaf_total :
      (supported : Bool) (f : QueryFilter)
      → (r : FilterPtr × FilterPtr) × (leaf c supported f ≡ ok r)
  leaf_total true f = (_, refl)
  leaf_total false f = (_, refl)

  mutual
    unfolding partition_filter is_condition_supported

    partition_filter_total :
        (f : QueryFilter)
        → IsSplittable c f
        → (r : FilterPtr × FilterPtr) × (partition_filter c f ≡ ok r)
    partition_filter_total (query_filter (condition n o (filter_value l a v no_subquery fn)) g t)
          s =
        leaf_total (c.comparison_operators o) _
    partition_filter_total (query_filter (condition n o (filter_value l a v (subquery y k) fn)) g t)
          s =
        absurd s
    partition_filter_total (query_filter no_condition (group o fs) t) s =
        let (m, e) = partition_conditions_total fs s.0 in
        (partition_group c o (query_filter no_condition (group o (written_filters c fs)) t) m, rw e)
    partition_filter_total (query_filter no_condition no_group (some p)) s =
        leaf_total (c.text_search_types p.type) _
    partition_filter_total (query_filter no_condition no_group none) s = absurd s

    partition_conditions_total :
        (fs : Filters)
        → AllSplittable c fs
        → (r : Filters × Filters) × (partition_conditions c fs ≡ ok r)
    partition_conditions_total no_filters s = (_, refl)
    partition_conditions_total (and_filter f fs) s =
        let (m, e) = partition_filter_total f s.0 in
        let (k, h) = partition_conditions_total fs s.1 in
        ((cons_filter m.0 k.0, cons_filter m.1 k.1), rw (e, h))

  Splits-both :
      (r : FilterPtr × FilterPtr) (b : Bool)
      → Splits w r b
      → (matches w r.0 >>= λ x. matches w r.1 >>= λ y. ok (x && y)) ≡ ok b
  unfolding matches
  Splits-both (no_filter, no_filter) b s = absurd s
  Splits-both (filter g, no_filter) b s = rw s (ground arith)
  Splits-both (no_filter, filter h) b s = rw s
  Splits-both (filter g, filter h) b (x, y, gx, hy, e) = rw (gx, hy) (rw e)

  -- Splitting succeeds on every filter without subquery conditions that has, below every operator
  -- other than AND and OR, leaves on one side only, and on a record on which the filter evaluates
  -- without an error the two parts evaluate without an error and their conjunction is the value of
  -- the filter.
  pub partition_filter-matches :
      (f : QueryFilter) (b : Bool)
      → IsSplittable c f
      → evaluate_query_filter w f ≡ ok b
      → (db post : FilterPtr) × (partition_filter c f ≡ ok (db, post))
        × ((matches w db >>= λ x. matches w post >>= λ y. ok (x && y)) ≡ ok b)
  partition_filter-matches f b s q =
      let ((db, post), e) = partition_filter_total f s in
      (db, post, e, Splits-both (db, post) b (filter-Splits f (db, post) b s e q))
