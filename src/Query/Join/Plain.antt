-- ===== src/Query/Join/Plain.antt =====
-- core/query/helper.go: what the joins give where the condition evaluates without an error. `test`
-- is its value on a left and a right document, and `pair` their combination.
use go_anansi.Prelude.{
  ℕ, suc, ◌≤◌, Bool, true, false, not, ◌&&◌, ◌||◌, Option, none, some, List, [], ◌∷◌, ◌++◌, ◌≡◌,
  refl, ◌∙◌, arith, if◌then◌else◌,
}
use go_anansi.Prelude.Result.{Result, ok}
use go_anansi.Query.Join.{join_row, unmatched, docs_of, indices_of, has_index, ◌then◌}

abbrev pub is_nil {ℓ} : {A : Type ℓ} → List A → Bool
is_nil [] = true
is_nil (x ∷ xs) = false

module _ {A C : Type 0} where
  -- the results of all, one after the other
  abbrev pub gather : (A → List C) → List A → List C
  gather f [] = []
  gather f (x ∷ xs) = f x ++ gather f xs

  -- of those that give nothing, what they are alone
  abbrev pub lonely : (A → List C) → (A → C) → List A → List C
  lonely f alone [] = []
  lonely f alone (x ∷ xs) =
      let rest = lonely f alone xs in if is_nil (f x) then alone x ∷ rest else rest

pub has_index-append :
    (k : ℕ) (is js : List ℕ) → has_index k (is ++ js) ≡ (has_index k is || has_index k js)
has_index-append k [] js = refl
has_index-append k (i ∷ is) js = ground (arith, has_index-append k is js)

pub is_nil-append {ℓ} : {A : Type ℓ} (xs ys : List A) → is_nil (xs ++ ys) ≡ (is_nil xs && is_nil ys)
is_nil-append [] ys = refl
is_nil-append (x ∷ xs) ys = refl

module _ {D E C : Type 0} (combine : Option D → Option D → C) (holds : C → Result E Bool)
    (test : C → Bool) (decided : (c : C) → holds c ≡ ok (test c)) where
  abbrev pub pair : D → D → List C
  pair l r = let doc = combine (some l) (some r) in if test doc then doc ∷ [] else []

  -- the documents that go with a left one, with their indices from `i` on
  abbrev pub row : D → ℕ → List D → List (ℕ × C)
  row l i [] = []
  row l i (r ∷ rs) =
      let rest = row l (suc i) rs in
      let doc = combine (some l) (some r) in if test doc then (i, doc) ∷ rest else rest

  pub join_row_lem : (l : D) (i : ℕ) (rs : List D) → join_row combine holds l i rs ≡ ok (row l i rs)
  unfolding join_row
  join_row_lem l i [] = refl
  join_row_lem l i (r ∷ rs) =
      rw (decided (combine (some l) (some r)), join_row_lem l (suc i) rs) refl

  pub docs-row : (l : D) (i : ℕ) (rs : List D) → docs_of (row l i rs) ≡ gather (pair l) rs
  docs-row l i [] = refl
  docs-row l i (r ∷ rs) = ground (arith, docs-row l (suc i) rs)

  -- the right indices of all matches of the left documents, where the right ones are from `i` on
  abbrev pub marks : ℕ → List D → List D → List ℕ
  marks i [] rs = []
  marks i (l ∷ ls) rs = indices_of (row l i rs) ++ marks i ls rs

  row_below :
      (k i : ℕ) (l : D) (rs : List D) → suc k ≤ i → has_index k (indices_of (row l i rs)) ≡ false
  row_below k i l [] h = refl
  row_below k i l (r ∷ rs) h = ground (arith, row_below k (suc i) l rs)

  pub marks_below : (k i : ℕ) (ls rs : List D) → suc k ≤ i → has_index k (marks i ls rs) ≡ false
  marks_below k i [] rs h = refl
  marks_below k i (l ∷ ls) rs h = ground (
    arith,
    row_below k i l rs,
    marks_below k i ls rs,
    has_index-append k (indices_of (row l i rs)) (marks i ls rs),
  )

  row_above :
      (k i : ℕ) (l r : D) (rs : List D)
      → suc i ≤ k
      → has_index k (indices_of (row l i (r ∷ rs))) ≡ has_index k (indices_of (row l (suc i) rs))
  row_above k i l r rs h = ground arith

  marks_above :
      (k i : ℕ) (ls : List D) (r : D) (rs : List D)
      → suc i ≤ k
      → has_index k (marks i ls (r ∷ rs)) ≡ has_index k (marks (suc i) ls rs)
  marks_above k i [] r rs h = refl
  marks_above k i (l ∷ ls) r rs h = ground (
    arith,
    row_above k i l r rs,
    marks_above k i ls r rs,
    has_index-append k (indices_of (row l i (r ∷ rs))) (marks i ls (r ∷ rs)),
    has_index-append k (indices_of (row l (suc i) rs)) (marks (suc i) ls rs),
  )

  row_here :
      (i : ℕ) (l r : D) (rs : List D)
      → has_index i (indices_of (row l i (r ∷ rs))) ≡ not (is_nil (pair l r))
  row_here i l r rs = ground (arith, row_below i (suc i) l rs)

  pub marks_here :
      (i : ℕ) (ls : List D) (r : D) (rs : List D)
      → has_index i (marks i ls (r ∷ rs)) ≡ not (is_nil (gather (λ l. pair l r) ls))
  marks_here i [] r rs = refl
  marks_here i (l ∷ ls) r rs = ground (
    arith,
    row_here i l r rs,
    marks_here i ls r rs,
    is_nil-append (pair l r) (gather (λ x. pair x r) ls),
    has_index-append i (indices_of (row l i (r ∷ rs))) (marks i ls (r ∷ rs)),
  )

  unmatched_same :
      (js ks : List ℕ) (i : ℕ) (rs : List D)
      → ((k : ℕ) → i ≤ k → has_index k js ≡ has_index k ks)
      → unmatched combine holds js i rs ≡ unmatched combine holds ks i rs
  unfolding unmatched
  unmatched_same js ks i [] h = refl
  unmatched_same js ks i (r ∷ rs) h =
      rw (h i (omega arith), unmatched_same js ks (suc i) rs (λ k g. h k (omega arith))) refl

  pub unmatched_lem :
      (i : ℕ) (ls rs : List D)
      → unmatched combine holds (marks i ls rs) i rs
        ≡ lonely (λ r. gather (λ l. pair l r) ls) (λ r. combine none (some r)) rs
  unfolding unmatched
  unmatched_lem i ls [] = refl
  unmatched_lem i ls (r ∷ rs) =
      let rest =
        unmatched_same (marks i ls (r ∷ rs)) (marks (suc i) ls rs) (suc i) rs
          (λ k g. marks_above k i ls r rs g)
        ∙ unmatched_lem (suc i) ls rs in
      ground (arith, rest, marks_here i ls r rs)
