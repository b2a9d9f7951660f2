-- ===== src/Query/Join/Results.antt =====
-- core/query/helper.go: the results of the joins, and what the streaming joins send without a
-- projection, where the condition evaluates without an error.
use go_anansi.Prelude.{Bool, Option, none, some, List, [], ◌∷◌, ◌++◌, ◌≡◌, refl}
use go_anansi.Prelude.Result.{Result, ok}
use go_anansi.Query.Join.{
  inner_join, left_join, right_rows, right_join, full_rows, full_join, or_alone,
}
use go_anansi.Query.Join.Plain.{gather, lonely, pair, marks, join_row_lem, docs-row, unmatched_lem}

module _ {D E C : Type 0} (combine : Option D → Option D → C) (holds : C → Result E Bool)
    (test : C → Bool) (decided : (c : C) → holds c ≡ ok (test c)) where
  abbrev pub hits : List D → D → List C
  hits rs l = gather (pair combine holds test decided l) rs

  abbrev pub hits_right : List D → D → List C
  hits_right ls r = gather (λ l. pair combine holds test decided l r) ls

  abbrev pub padded : List D → D → List C
  padded rs l = or_alone (hits rs l) (combine (some l) none)

  pub inner_join_lem : (ls rs : List D) → inner_join combine holds ls rs ≡ ok (gather (hits rs) ls)
  unfolding inner_join
  inner_join_lem [] rs = refl
  inner_join_lem (l ∷ ls) rs =
      rw
        (
          join_row_lem combine holds test decided l 0 rs,
          inner_join_lem ls rs,
          docs-row combine holds test decided l 0 rs,
        )
        refl

  pub left_join_lem : (ls rs : List D) → left_join combine holds ls rs ≡ ok (gather (padded rs) ls)
  unfolding left_join
  left_join_lem [] rs = refl
  left_join_lem (l ∷ ls) rs =
      rw
        (
          join_row_lem combine holds test decided l 0 rs,
          left_join_lem ls rs,
          docs-row combine holds test decided l 0 rs,
        )
        refl

  right_rows_lem :
      (ls rs : List D)
      → right_rows combine holds ls rs
        ≡ ok (gather (hits rs) ls, marks combine holds test decided 0 ls rs)
  unfolding right_rows
  right_rows_lem [] rs = refl
  right_rows_lem (l ∷ ls) rs =
      rw
        (
          join_row_lem combine holds test decided l 0 rs,
          right_rows_lem ls rs,
          docs-row combine holds test decided l 0 rs,
        )
        refl

  full_rows_lem :
      (ls rs : List D)
      → full_rows combine holds ls rs
        ≡ ok (gather (padded rs) ls, marks combine holds test decided 0 ls rs)
  unfolding full_rows
  full_rows_lem [] rs = refl
  full_rows_lem (l ∷ ls) rs =
      rw
        (
          join_row_lem combine holds test decided l 0 rs,
          full_rows_lem ls rs,
          docs-row combine holds test decided l 0 rs,
        )
        refl

  abbrev pub left_alone : D → C
  left_alone l = combine (some l) none

  abbrev pub right_alone : D → C
  right_alone r = combine none (some r)

  pub right_join_lem :
      (ls rs : List D)
      → right_join combine holds ls rs
        ≡ ok (gather (hits rs) ls ++ lonely (hits_right ls) right_alone rs)
  unfolding right_join
  right_join_lem ls rs =
      rw (right_rows_lem ls rs, unmatched_lem combine holds test decided 0 ls rs) refl

  pub full_join_lem :
      (ls rs : List D)
      → full_join combine holds ls rs
        ≡ ok (gather (padded rs) ls ++ lonely (hits_right ls) right_alone rs)
  unfolding full_join
  full_join_lem ls rs =
      rw (full_rows_lem ls rs, unmatched_lem combine holds test decided 0 ls rs) refl
