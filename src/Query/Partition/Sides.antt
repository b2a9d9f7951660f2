-- ===== src/Query/Partition/Sides.antt =====
-- The two sides of a split filter of core/query/partitioner.go, and what they say together of a
-- record.
use go_anansi.Prelude.{Bool, true, false, ◌&&◌, ◌≡◌, refl, sym, ap, ◌∙◌, arith}
use go_anansi.Prelude.{none, List, [], ◌∷◌}
use go_anansi.Prelude.Result.{ok, bind-ok, ok-injective}
use go_anansi.Logical.{LogicalOperator, logical_and, first_hit}
use go_anansi.Logical.{evaluate}
use go_anansi.Query.{
  no_condition, group, QueryFilter, query_filter, Filters, no_filters, and_filter, FilterPtr,
  no_filter, filter,
}
use go_anansi.Query.Match.{Oracle, evaluate_query_filter, evaluate_conditions_of}
use go_anansi.Query.Partition.{cons_filter}

abbrev pub all : List Bool → Bool
all [] = true
all (b ∷ bs) = b && all bs

pub and_false : (b : Bool) → (b && false) ≡ false
and_false true = refl
and_false false = refl

first_hit-all : (bs : List Bool) → first_hit false false true bs ≡ all bs
unfolding first_hit
first_hit-all [] = refl
first_hit-all (true ∷ bs) = first_hit-all bs
first_hit-all (false ∷ bs) = refl

evaluate-and : (b : Bool) (bs : List Bool) → evaluate logical_and (b ∷ bs) ≡ ok (all (b ∷ bs))
unfolding evaluate
evaluate-and b bs = ap ok (first_hit-all (b ∷ bs))

pub evaluate-and_ok : (bs : List Bool) (b : Bool) → evaluate logical_and bs ≡ ok b → b ≡ all bs
unfolding evaluate
evaluate-and_ok [] b e = cc
evaluate-and_ok (x ∷ bs) b e = sym (ok-injective _ b e) ∙ first_hit-all (x ∷ bs)

module _ (w : Oracle) where
  -- `db` and `post`, of which one is there, say together that the record passes or not.
  abbrev pub Splits : FilterPtr × FilterPtr → Bool → Type 0
  Splits (no_filter, no_filter) b = ⊥
  Splits (filter g, no_filter) b = evaluate_query_filter w g ≡ ok b
  Splits (no_filter, filter h) b = evaluate_query_filter w h ≡ ok b
  Splits (filter g, filter h) b =
      (x y : Bool) × (evaluate_query_filter w g ≡ ok x)
      × (evaluate_query_filter w h ≡ ok y)
      × (b ≡ (x && y))

  -- the same for the conditions of a group, of which one side may have none
  pub record SplitsAll (r : Filters × Filters) (bs : List Bool) : Type 0 where
    pub xs : List Bool
    pub ys : List Bool
    pub db_results : evaluate_conditions_of w r.0 ≡ ok xs
    pub post_results : evaluate_conditions_of w r.1 ≡ ok ys
    pub conjunction : all bs ≡ (all xs && all ys)
    pub db_only : r.1 ≡ no_filters → xs ≡ bs
    pub post_only : r.0 ≡ no_filters → ys ≡ bs

  pub SplitsAll-nil : SplitsAll (no_filters, no_filters) []
  unfolding evaluate_query_filter
  SplitsAll-nil = record {
    xs = [];
    ys = [];
    db_results = refl;
    post_results = refl;
    conjunction = refl;
    db_only = λ e. refl;
    post_only = λ e. refl;
  }

  pub SplitsAll-cons :
      (m : FilterPtr × FilterPtr) (k : Filters × Filters) (b : Bool) (bs : List Bool)
      → Splits m b
      → SplitsAll k bs
      → SplitsAll (cons_filter m.0 k.0, cons_filter m.1 k.1) (b ∷ bs)
  unfolding evaluate_query_filter
  SplitsAll-cons (no_filter, no_filter) k b bs s t = absurd s
  SplitsAll-cons (filter g, no_filter) (ds, ps) b bs s t = record {
    xs = b ∷ t.xs;
    ys = t.ys;
    db_results = rw (s, t.db_results);
    post_results = t.post_results;
    conjunction = ground (arith, t.conjunction);
    db_only = λ e. ap (λ (l : List Bool). b ∷ l) (t.db_only e);
    post_only = λ e. cc;
  }
  SplitsAll-cons (no_filter, filter h) (ds, ps) b bs s t = record {
    xs = t.xs;
    ys = b ∷ t.ys;
    db_results = t.db_results;
    post_results = rw (s, t.post_results);
    conjunction = ground (arith, t.conjunction);
    db_only = λ e. cc;
    post_only = λ e. ap (λ (l : List Bool). b ∷ l) (t.post_only e);
  }
  SplitsAll-cons (filter g, filter h) (ds, ps) b bs (x, y, gx, hy, e) t = record {
    xs = x ∷ t.xs;
    ys = y ∷ t.ys;
    db_results = rw (gx, t.db_results);
    post_results = rw (hy, t.post_results);
    conjunction = ground (arith, t.conjunction);
    db_only = λ e. cc;
    post_only = λ e. cc;
  }

  -- A group of the conditions `fs` on one side only evaluates as the whole.
  pub evaluate-group :
      (o : LogicalOperator) (f : QueryFilter) (fs : Filters) (bs : List Bool) (b : Bool)
      → evaluate_conditions_of w (and_filter f fs) ≡ ok bs
      → evaluate o bs ≡ ok b
      → evaluate_query_filter w (query_filter no_condition (group o (and_filter f fs)) none) ≡ ok b
  unfolding evaluate_query_filter
  evaluate-group o f fs bs b e q = rw e q

  -- The results of a group with a condition are not empty.
  results_cons :
      (f : QueryFilter) (fs : Filters) (xs : List Bool)
      → evaluate_conditions_of w (and_filter f fs) ≡ ok xs
      → (y : Bool) × (ys : List Bool) × (xs ≡ y ∷ ys)
  unfolding evaluate_query_filter
  results_cons f fs xs e =
      let (r, _, k) = bind-ok (evaluate_query_filter w f) _ e in
      let (rs, _, k') = bind-ok (evaluate_conditions_of w fs) _ k in
      (r, rs, sym (ok-injective _ xs k'))

  pub no_results :
      (o : LogicalOperator) (xs bs : List Bool) {b : Bool}
      → evaluate_conditions_of w no_filters ≡ ok xs
      → xs ≡ bs
      → evaluate o bs ≡ ok b
      → ⊥
  unfolding evaluate_query_filter evaluate
  no_results o xs bs {b} e q h =
      let empty : bs ≡ [] = sym (ok-injective _ xs e ∙ q) in
      let failed : evaluate o [] ≡ ok b = rw empty at h in cc

  pub evaluate-group_and :
      (f : QueryFilter) (fs : Filters) (xs : List Bool)
      → evaluate_conditions_of w (and_filter f fs) ≡ ok xs
      → evaluate_query_filter w
          (query_filter no_condition (group logical_and (and_filter f fs)) none)
        ≡ ok (all xs)
  evaluate-group_and f fs xs e =
      let (y, ys, q) = results_cons f fs xs e in
      evaluate-group logical_and f fs xs (all xs) e (rw q (evaluate-and y ys))
