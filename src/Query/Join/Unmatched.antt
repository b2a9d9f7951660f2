-- ===== src/Query/Join/Unmatched.antt =====
-- core/query/helper.go, performStreamingFullJoin: what it sends without a projection, where the
-- condition evaluates without an error.
use go_anansi.Prelude.{
  ℕ, suc, ◌≤◌, Bool, false, not, ◌&&◌, ◌||◌, Option, none, List, [], ◌∷◌, ◌++◌, ◌==◌, ◌≡◌, refl,
  ◌∙◌, arith, Bool-cases, inl, inr,
}
use go_anansi.Prelude.Result.{Result, ok}
use go_anansi.Query.Join.{has_index, unmatched}
use go_anansi.Query.Join.Streams.{full_pairs, stream_unmatched, stream_full, send, mark}
use go_anansi.Query.Join.Plain.{gather, lonely, is_nil, marks, unmatched_lem}
use go_anansi.Query.Join.Results.{hits, hits_right, left_alone, right_alone}
use go_anansi.Query.Join.Sending.{stream_row_lem, indices-row, is_nil-indices, indices, left_pair}

module _ {D E C : Type 0} (combine : Option D → Option D → C) (holds : C → Result E Bool)
    (test : C → Bool) (decided : (c : C) → holds c ≡ ok (test c)) where
  abbrev left_marks : ℕ → List D → List D → List ℕ
  left_marks i [] rs = []
  left_marks i (l ∷ ls) rs =
      mark i (indices combine holds test decided (left_pair combine holds test decided l) 0 rs)
        (left_marks (suc i) ls rs)

  full_pairs_lem :
      (i : ℕ) (ls rs : List D)
      → full_pairs combine holds none i ls rs ≡ (
        (gather (hits combine holds test decided rs) ls, none),
        left_marks i ls rs,
        marks combine holds test decided 0 ls rs,
      )
  unfolding full_pairs
  full_pairs_lem i [] rs = refl
  full_pairs_lem i (l ∷ ls) rs =
      rw
        (
          stream_row_lem combine holds test decided (left_pair combine holds test decided l) 0 rs,
          full_pairs_lem (suc i) ls rs,
          ← indices-row combine holds test decided l 0 rs,
        )
        refl

  has-mark :
      (k i : ℕ) (js lefts : List ℕ)
      → has_index k (mark i js lefts) ≡ ((k == i && not (is_nil js)) || has_index k lefts)
  has-mark k i [] lefts = ground arith
  has-mark k i (j ∷ js) lefts = ground arith

  left_marks_below :
      (k i : ℕ) (ls rs : List D) → suc k ≤ i → has_index k (left_marks i ls rs) ≡ false
  left_marks_below k i [] rs h = refl
  left_marks_below k i (l ∷ ls) rs h = ground (
    arith,
    left_marks_below k (suc i) ls rs,
    has-mark k i (indices combine holds test decided (left_pair combine holds test decided l) 0 rs)
        (left_marks (suc i) ls rs),
  )

  stream_unmatched_same :
      (alone : D → C) (js ks : List ℕ) (i : ℕ) (xs : List D)
      → ((k : ℕ) → i ≤ k → has_index k js ≡ has_index k ks)
      → stream_unmatched combine holds none alone js i xs
        ≡ stream_unmatched combine holds none alone ks i xs
  unfolding stream_unmatched
  stream_unmatched_same alone js ks i [] h = refl
  stream_unmatched_same alone js ks i (x ∷ xs) h =
      rw
        (h i (omega arith), stream_unmatched_same alone js ks (suc i) xs (λ k g. h k (omega arith)))
        refl

  send_lefts :
      (i : ℕ) (ls rs : List D)
      → stream_unmatched combine holds none
          (left_alone combine holds test decided)
          (left_marks i ls rs)
          i
          ls
        ≡ (
          lonely (hits combine holds test decided rs) (left_alone combine holds test decided) ls,
          none,
        )
  unfolding stream_unmatched send
  send_lefts i [] rs = refl
  send_lefts i (l ∷ ls) rs =
      let js = indices combine holds test decided (left_pair combine holds test decided l) 0 rs in
      let matched : has_index i (left_marks i (l ∷ ls) rs)
          ≡ not (is_nil (hits combine holds test decided rs l)) =
        ground (
          arith,
          has-mark i i js (left_marks (suc i) ls rs),
          left_marks_below i (suc i) ls rs,
          is_nil-indices combine holds test decided (left_pair combine holds test decided l) 0 rs,
        ) in
      let rest =
        stream_unmatched_same (left_alone combine holds test decided) (left_marks i (l ∷ ls) rs)
          (left_marks (suc i) ls rs) (suc i) ls
          (λ k g. has-mark k i js (left_marks (suc i) ls rs) ∙ ground (arith, g))
        ∙ send_lefts (suc i) ls rs in
      elim (Bool-cases (is_nil (hits combine holds test decided rs l))) [
        | inl h ↦ rw (matched, rest, h) refl
        | inr h ↦ rw (matched, rest, h) refl
      ]

  send_rights :
      (matched : List ℕ) (i : ℕ) (rs : List D)
      → stream_unmatched combine holds none (right_alone combine holds test decided) matched i rs
        ≡ (unmatched combine holds matched i rs, none)
  unfolding stream_unmatched unmatched send
  send_rights matched i [] = refl
  send_rights matched i (r ∷ rs) = elim (Bool-cases (has_index i matched)) [
    | inl h ↦ rw (h, send_rights matched (suc i) rs) refl
    | inr h ↦ rw (h, send_rights matched (suc i) rs) refl
  ]

  pub stream_full_lem :
      (ls rs : List D)
      → stream_full combine holds none ls rs ≡ (
        gather (hits combine holds test decided rs) ls
            ++ (lonely
                  (hits combine holds test decided rs)
                  (left_alone combine holds test decided)
                  ls
                ++ lonely
                    (hits_right combine holds test decided ls)
                    (right_alone combine holds test decided)
                    rs),
        none,
      )
  unfolding stream_full
  stream_full_lem ls rs =
      rw
        (
          full_pairs_lem 0 ls rs,
          send_lefts 0 ls rs,
          send_rights (marks combine holds test decided 0 ls rs) 0 rs,
          unmatched_lem combine holds test decided 0 ls rs,
        )
        refl
