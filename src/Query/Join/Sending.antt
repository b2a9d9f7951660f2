-- ===== src/Query/Join/Sending.antt =====
-- core/query/helper.go: what the streaming joins send without a projection, where the condition
-- evaluates without an error.
use go_anansi.Prelude.{
  ℕ, suc, Bool, Option, none, some, List, [], ◌∷◌, ◌++◌, ◌≡◌, refl, arith, if◌then◌else◌,
  Bool-cases, inl, inr,
}
use go_anansi.Prelude.Result.{Result, ok}
use go_anansi.Query.Join.{or_alone, indices_of, ◌then◌}
use go_anansi.Query.Join.Streams.{
  stream_row, stream_inner, stream_left, stream_right, send, send_alone,
}
use go_anansi.Query.Join.Plain.{gather, is_nil, row}
use go_anansi.Query.Join.Results.{hits, hits_right, padded}

module _ {D E C : Type 0} (combine : Option D → Option D → C) (holds : C → Result E Bool)
    (test : C → Bool) (decided : (c : C) → holds c ≡ ok (test c)) where
  abbrev pub chosen : (D → C) → D → List C
  chosen p x = if test (p x) then p x ∷ [] else []

  abbrev pub indices : (D → C) → ℕ → List D → List ℕ
  indices p i [] = []
  indices p i (x ∷ xs) = let rest = indices p (suc i) xs in if test (p x) then i ∷ rest else rest

  pub stream_row_lem :
      (p : D → C) (i : ℕ) (xs : List D)
      → stream_row combine holds none p i xs ≡ ((gather (chosen p) xs, none), indices p i xs)
  unfolding stream_row send
  stream_row_lem p i [] = refl
  stream_row_lem p i (x ∷ xs) = elim (Bool-cases (test (p x))) [
    | inl t ↦ rw (decided (p x), stream_row_lem p (suc i) xs, t) refl
    | inr t ↦ rw (decided (p x), stream_row_lem p (suc i) xs, t) refl
  ]

  pub indices-row :
      (l : D) (i : ℕ) (rs : List D)
      → indices (λ r. combine (some l) (some r)) i rs
        ≡ indices_of (row combine holds test decided l i rs)
  indices-row l i [] = refl
  indices-row l i (r ∷ rs) = ground (arith, indices-row l (suc i) rs)

  pub is_nil-indices :
      (p : D → C) (i : ℕ) (xs : List D) → is_nil (indices p i xs) ≡ is_nil (gather (chosen p) xs)
  is_nil-indices p i [] = refl
  is_nil-indices p i (x ∷ xs) = ground (arith, is_nil-indices p (suc i) xs)

  -- a row that was sent, and what is sent alone if it is empty
  row_alone :
      (docs : List C) (is : List ℕ) (alone : C) (more : List C)
      → is_nil is ≡ is_nil docs
      → ((docs, none) then send_alone combine holds none alone is then (more, none))
        ≡ (or_alone docs alone ++ more, none)
  unfolding send
  row_alone [] [] alone more h = refl
  row_alone [] (i ∷ is) alone more h = absurd (ground (arith, h))
  row_alone (c ∷ docs) [] alone more h = absurd (ground (arith, h))
  row_alone (c ∷ docs) (i ∷ is) alone more h = refl

  abbrev pub left_pair : D → D → C
  left_pair l r = combine (some l) (some r)

  pub stream_inner_lem :
      (ls rs : List D)
      → stream_inner combine holds none ls rs
        ≡ (gather (hits combine holds test decided rs) ls, none)
  unfolding stream_inner
  stream_inner_lem [] rs = refl
  stream_inner_lem (l ∷ ls) rs = rw (stream_row_lem (left_pair l) 0 rs, stream_inner_lem ls rs) refl

  pub stream_left_lem :
      (ls rs : List D)
      → stream_left combine holds none ls rs
        ≡ (gather (padded combine holds test decided rs) ls, none)
  unfolding stream_left
  stream_left_lem [] rs = refl
  stream_left_lem (l ∷ ls) rs =
      rw (stream_row_lem (left_pair l) 0 rs, stream_left_lem ls rs)
        (row_alone (gather (chosen (left_pair l)) rs) (indices (left_pair l) 0 rs)
          (combine (some l) none) (gather (padded combine holds test decided rs) ls)
          (is_nil-indices (left_pair l) 0 rs))

  abbrev pub padded_right : List D → D → List C
  padded_right ls r = or_alone (hits_right combine holds test decided ls r) (combine none (some r))

  pub stream_right_lem :
      (ls rs : List D) → stream_right combine holds none ls rs ≡ (gather (padded_right ls) rs, none)
  unfolding stream_right
  stream_right_lem ls [] = refl
  stream_right_lem ls (r ∷ rs) =
      let p : D → C = λ l. left_pair l r in
      rw (stream_row_lem p 0 ls, stream_right_lem ls rs)
        (row_alone (gather (chosen p) ls) (indices p 0 ls) (combine none (some r))
          (gather (padded_right ls) rs) (is_nil-indices p 0 ls))
