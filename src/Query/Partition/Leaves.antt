-- ===== src/Query/Partition/Leaves.antt =====
-- The filters that core/query/partitioner.go can split: predicates on the leaves of a filter, and
-- the side that a filter with uniform leaves goes to.
use go_anansi.Prelude.{Bool, true, false, ◌≡◌, ◌⊎◌, refl, ap, ◌∙◌, none, some, arith}
use go_anansi.Prelude.Result.{Result, ok, bind-ok, ok-injective}
use go_anansi.Logical.{LogicalOperator, logical_and, logical_or}
use go_anansi.Query.{
  filter_value, no_subquery, subquery, no_condition, condition, no_group, group, QueryFilter,
  query_filter, Filters, no_filters, and_filter, FilterPtr, no_filter,
}
use go_anansi.Query.Partition.{
  Capabilities, QueryError, cons_filter, partition_filter, partition_conditions, partition_group,
  leaf, is_condition_supported, written_filter, written_filters,
}

-- An operator that needs all its conditions on one side.
abbrev pub Needs : LogicalOperator → Type 0 → Type 0
Needs logical_and P = Unit
Needs logical_or P = Unit
Needs _ P = P

module _ (c : Capabilities) where
  -- Every leaf is one that the database supports (`b` true) or none is (`b` false), and no
  -- condition compares with a subquery.
  abbrev mutual
    pub OnSide : Bool → QueryFilter → Type 0
    OnSide b (query_filter (condition n o (filter_value l a r no_subquery fn)) g t) =
        c.comparison_operators o ≡ b
    OnSide b (query_filter (condition n o (filter_value l a r (subquery y q) fn)) g t) = ⊥
    OnSide b (query_filter no_condition (group o fs) t) = OnSideAll b fs
    OnSide b (query_filter no_condition no_group (some s)) = c.text_search_types s.type ≡ b
    OnSide b (query_filter no_condition no_group none) = ⊥

    pub OnSideAll : Bool → Filters → Type 0
    OnSideAll b no_filters = Unit
    OnSideAll b (and_filter f fs) = OnSide b f × OnSideAll b fs

  -- No condition compares with a subquery, and below every operator other than AND and OR the
  -- leaves are on one side.
  abbrev mutual
    pub IsSplittable : QueryFilter → Type 0
    IsSplittable (query_filter (condition n o (filter_value l a r no_subquery fn)) g t) = Unit
    IsSplittable (query_filter (condition n o (filter_value l a r (subquery y q) fn)) g t) = ⊥
    IsSplittable (query_filter no_condition (group o fs) t) =
        AllSplittable fs × Needs o (OnSideAll true fs ⊎ OnSideAll false fs)
    IsSplittable (query_filter no_condition no_group (some s)) = Unit
    IsSplittable (query_filter no_condition no_group none) = ⊥

    pub AllSplittable : Filters → Type 0
    AllSplittable no_filters = Unit
    AllSplittable (and_filter f fs) = IsSplittable f × AllSplittable fs

  -- Nothing is written in a filter without subquery conditions.
  mutual
    unfolding partition_filter

    written_filter_lem : (f : QueryFilter) → IsSplittable f → written_filter c f ≡ f
    written_filter_lem (query_filter (condition n o (filter_value l a v no_subquery fn)) g t) s =
        refl
    written_filter_lem (query_filter (condition n o (filter_value l a v (subquery y q) fn)) g t) s =
        absurd s
    written_filter_lem (query_filter no_condition (group o fs) t) s =
        ap (λ (k : Filters). query_filter no_condition (group o k) t) (written_filters_lem fs s.0)
    written_filter_lem (query_filter no_condition no_group t) s = refl

    pub written_filters_lem : (fs : Filters) → AllSplittable fs → written_filters c fs ≡ fs
    written_filters_lem no_filters s = refl
    written_filters_lem (and_filter f fs) s =
        ap (λ (g : QueryFilter). and_filter g (written_filters c fs)) (written_filter_lem f s.0)
        ∙ ap (λ (k : Filters). and_filter f k) (written_filters_lem fs s.1)

  abbrev pub other_part {ℓ} : {A : Type ℓ} → Bool → A × A → A
  other_part true (db, post) = post
  other_part false (db, post) = db

  leaf_side :
      (b s : Bool) (f : QueryFilter) (r : FilterPtr × FilterPtr)
      → s ≡ b
      → leaf c s f ≡ ok r
      → other_part b r ≡ no_filter
  leaf_side true true f r e h = ground arith
  leaf_side true false f r e h = cc
  leaf_side false true f r e h = cc
  leaf_side false false f r e h = ground arith

  partition_group_side :
      (b : Bool) (o : LogicalOperator) (f : QueryFilter) (r : Filters × Filters)
      → other_part b r ≡ no_filters
      → other_part b (partition_group c o f r) ≡ no_filter
  unfolding partition_group
  partition_group_side true o f (db, post) h = ground arith
  partition_group_side false o f (db, post) h = ground arith

  no_filters_side :
      (b : Bool) (r : Filters × Filters)
      → ◌≡◌ {A = Result QueryError (Filters × Filters)} (ok (no_filters, no_filters)) (ok r)
      → other_part b r ≡ no_filters
  no_filters_side true r h = ground arith
  no_filters_side false r h = ground arith

  cons_side :
      (b : Bool) (m : FilterPtr × FilterPtr) (k : Filters × Filters)
      → other_part b m ≡ no_filter
      → other_part b k ≡ no_filters
      → other_part {A = Filters} b (cons_filter m.0 k.0, cons_filter m.1 k.1) ≡ no_filters
  cons_side true (d, p) (ds, ps) h q = ground arith
  cons_side false (d, p) (ds, ps) h q = ground arith

  -- A filter whose leaves are on one side goes to that side whole.
  mutual
    unfolding partition_filter is_condition_supported

    pub OnSide-partition_filter :
        (b : Bool) (f : QueryFilter) (r : FilterPtr × FilterPtr)
        → OnSide b f
        → partition_filter c f ≡ ok r
        → other_part b r ≡ no_filter
    OnSide-partition_filter b (query_filter (condition n o (filter_value l a v no_subquery fn)) g t)
          r s e =
        leaf_side b (c.comparison_operators o) _ r s e
    OnSide-partition_filter b
          (query_filter (condition n o (filter_value l a v (subquery y q) fn)) g t) r s e =
        absurd s
    OnSide-partition_filter b (query_filter no_condition (group o fs) t) r s e =
        let (m, me, re) = bind-ok (partition_conditions c fs) _ e in
        rw (← ok-injective _ r re)
          (partition_group_side b o _ m (OnSideAll-partition_conditions b fs m s me))
    OnSide-partition_filter b (query_filter no_condition no_group (some q)) r s e =
        leaf_side b (c.text_search_types q.type) _ r s e
    OnSide-partition_filter b (query_filter no_condition no_group none) r s e = absurd s

    pub OnSideAll-partition_conditions :
        (b : Bool) (fs : Filters) (r : Filters × Filters)
        → OnSideAll b fs
        → partition_conditions c fs ≡ ok r
        → other_part b r ≡ no_filters
    OnSideAll-partition_conditions b no_filters r s e = no_filters_side b r e
    OnSideAll-partition_conditions b (and_filter f fs) r s e =
        let (m, me, re) = bind-ok (partition_filter c f) _ e in
        let (k, ke, se) = bind-ok (partition_conditions c fs) _ re in
        rw (← ok-injective _ r se) (
          cons_side b m k (OnSide-partition_filter b f m s.0 me)
            (OnSideAll-partition_conditions b fs k s.1 ke))
