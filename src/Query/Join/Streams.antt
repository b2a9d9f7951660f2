-- ===== src/Query/Join/Streams.antt =====
-- core/query/helper.go, JoinStreams: the joins that send their documents one by one. The side that
-- is buffered is a list, and so are the two streams.
use go_anansi.Prelude.{ℕ, suc, Bool, Option, none, some, List, [], ◌∷◌, ◌++◌, if◌then◌else◌}
use go_anansi.Prelude.Result.{Result, ok, err}
use go_anansi.Query.Join.{
  Sent, ◌then◌, has_index, JoinType, join_inner, join_left, join_right, join_full,
}

abbrev pub nothing : {E C : Type 0} → Sent E C
nothing = ([], none)

-- the index of a document that went with some, added to a set
abbrev pub mark : ℕ → List ℕ → List ℕ → List ℕ
mark i [] lefts = lefts
mark i (j ∷ js) lefts = i ∷ lefts

-- `project` is the projection of the join, if it has one.
module _ {D E C : Type 0} (combine : Option D → Option D → C) (holds : C → Result E Bool)
    (project : Option (C → Result E C)) where
  abbrev pub send_result : Result E C → Sent E C
  send_result (ok doc) = (doc ∷ [], none)
  send_result (err e) = ([], some e)

  unfoldable pub send : C → Sent E C
  send doc = elim project [ none ↦ (doc ∷ [], none) | some f ↦ send_result (f doc) ]

  -- what one document sends as it meets the others, and the indices of those it goes with
  abbrev pub meet : Result E Bool → ℕ → C → Sent E C × List ℕ → Sent E C × List ℕ
  meet (err e) i doc rest = (([], some e), [])
  meet (ok m) i doc rest = if m then (send doc then rest.0, i ∷ rest.1) else rest

  unfoldable pub stream_row : (D → C) → ℕ → List D → Sent E C × List ℕ
  stream_row pair i [] = (nothing, [])
  stream_row pair i (x ∷ xs) = meet (holds (pair x)) i (pair x) (stream_row pair (suc i) xs)

  -- a document that went with none is sent alone
  abbrev pub send_alone : C → List ℕ → Sent E C
  send_alone alone [] = send alone
  send_alone alone (i ∷ is) = nothing

  unfoldable pub stream_inner : List D → List D → Sent E C
  stream_inner [] rs = nothing
  stream_inner (l ∷ ls) rs =
      (stream_row (λ r. combine (some l) (some r)) 0 rs).0 then stream_inner ls rs

  unfoldable pub stream_left : List D → List D → Sent E C
  stream_left [] rs = nothing
  stream_left (l ∷ ls) rs =
      let row = stream_row (λ r. combine (some l) (some r)) 0 rs in
      row.0 then send_alone (combine (some l) none) row.1 then stream_left ls rs

  unfoldable pub stream_right : List D → List D → Sent E C
  stream_right ls [] = nothing
  stream_right ls (r ∷ rs) =
      let row = stream_row (λ l. combine (some l) (some r)) 0 ls in
      row.0 then send_alone (combine none (some r)) row.1 then stream_right ls rs

  -- the matches of the left documents from index `i` on, with the matched indices of both sides
  unfoldable pub full_pairs : ℕ → List D → List D → Sent E C × List ℕ × List ℕ
  full_pairs i [] rs = (nothing, [], [])
  full_pairs i (l ∷ ls) rs =
      let row = stream_row (λ r. combine (some l) (some r)) 0 rs in
      let rest = full_pairs (suc i) ls rs in
      (row.0 then rest.0, mark i row.1 rest.1, row.1 ++ rest.2)

  -- the documents from index `i` on that are not in the set
  unfoldable pub stream_unmatched : (D → C) → List ℕ → ℕ → List D → Sent E C
  stream_unmatched alone matched i [] = nothing
  stream_unmatched alone matched i (x ∷ xs) =
      let rest = stream_unmatched alone matched (suc i) xs in
      if has_index i matched then rest else (send (alone x) then rest)

  unfoldable pub stream_full : List D → List D → Sent E C
  stream_full ls rs =
      let (sent, lefts, rights) = full_pairs 0 ls rs in
      sent
      then stream_unmatched (λ l. combine (some l) none) lefts 0 ls
      then stream_unmatched (λ r. combine none (some r)) rights 0 rs

  abbrev pub stream_join : JoinType → List D → List D → Sent E C
  stream_join join_inner = stream_inner
  stream_join join_left = stream_left
  stream_join join_right = stream_right
  stream_join join_full = stream_full
