-- ===== src/Query/Join.antt =====
-- core/query/helper.go, Join and JoinStreams: the joins in memory. `D` are the documents. The
-- condition of the join on a combined document, which is `matches` of Query/Match, and the
-- projection are arguments. A stream is the list of what is sent until it is closed.
pub mod Streams
pub mod Plain
pub mod Results
pub mod Sending
pub mod Unmatched
pub mod Shuffle
pub mod Agree
pub mod Tests
use Prim.Native.String.{String}
use text.Mathlib.Text.{◌==◌ as str_eq}
use go_anansi.Prelude.{
  ℕ, zero, suc, ◌+◌, Bool, true, false, Option, none, some, List, [], ◌∷◌, ◌++◌, map, ◌==◌, ◌||◌,
  if◌then◌else◌,
}
use go_anansi.Prelude.Result.{Result, ok, err, ◌>>=◌}
use go_anansi.Query.{QueryTarget}

pub data JoinType : Type 0 where
  join_inner join_left join_right join_full : JoinType

-- A Go map from names to documents, of which nil is `none`.
abbrev pub Combined : Type 0 → Type 0
Combined D = List (String × Option D)

-- The second name replaces the first if they are equal.
unfoldable pub combine_docs : {D : Type 0} → String → Option D → String → Option D → Combined D
combine_docs left_name left_doc right_name right_doc =
    if str_eq left_name right_name
    then (right_name, right_doc) ∷ []
    else (left_name, left_doc) ∷ (right_name, right_doc) ∷ []

abbrev pub or_name : Option String → String → String
or_name none name = name
or_name (some alias) name = if str_eq alias "" then name else alias

unfoldable pub left_collection_name : Option QueryTarget → String
left_collection_name none = "left"
left_collection_name (some target) =
    or_name target.alias (if str_eq target.name "" then "left" else target.name)

unfoldable pub right_collection_name : QueryTarget → String
right_collection_name target = or_name target.alias target.name

-- whether the index is in the set
abbrev pub has_index : ℕ → List ℕ → Bool
has_index i [] = false
has_index i (j ∷ js) = i == j || has_index i js

abbrev pub or_alone {ℓ} : {A : Type ℓ} → List A → A → List A
or_alone [] alone = alone ∷ []
or_alone (x ∷ xs) alone = x ∷ xs

abbrev pub docs_of : {C : Type 0} → List (ℕ × C) → List C
docs_of = map (λ p. p.1)

abbrev pub indices_of : {C : Type 0} → List (ℕ × C) → List ℕ
indices_of = map (λ p. p.0)

-- `combine` is `combineDocs` with the two names.
module _ {D E C : Type 0} (combine : Option D → Option D → C) (holds : C → Result E Bool) where
  -- the documents from index `i` on that go with a left one, with their indices
  unfoldable pub join_row : D → ℕ → List D → Result E (List (ℕ × C))
  join_row l i [] = ok []
  join_row l i (r ∷ rs) =
      let rest = join_row l (suc i) rs in
      let doc = combine (some l) (some r) in
      holds doc >>= λ m. rest >>= λ found. ok (if m then (i, doc) ∷ found else found)

  unfoldable pub inner_join : List D → List D → Result E (List C)
  inner_join [] rs = ok []
  inner_join (l ∷ ls) rs =
      let rest = inner_join ls rs in
      join_row l 0 rs >>= λ row. rest >>= λ docs. ok (docs_of row ++ docs)

  unfoldable pub left_join : List D → List D → Result E (List C)
  left_join [] rs = ok []
  left_join (l ∷ ls) rs =
      let rest = left_join ls rs in
      join_row l 0 rs >>= λ row.
      rest >>= λ docs. ok (or_alone (docs_of row) (combine (some l) none) ++ docs)

  -- the right documents from index `i` on that are not in the set
  unfoldable pub unmatched : List ℕ → ℕ → List D → List C
  unmatched matched i [] = []
  unmatched matched i (r ∷ rs) =
      let rest = unmatched matched (suc i) rs in
      if has_index i matched then rest else (combine none (some r) ∷ rest)

  -- The loop over the left documents gives the result so far and the matched indices.
  unfoldable pub right_rows : List D → List D → Result E (List C × List ℕ)
  right_rows [] rs = ok ([], [])
  right_rows (l ∷ ls) rs =
      let rest = right_rows ls rs in
      join_row l 0 rs >>= λ row. rest >>= λ acc. ok (docs_of row ++ acc.0, indices_of row ++ acc.1)

  unfoldable pub right_join : List D → List D → Result E (List C)
  right_join ls rs = right_rows ls rs >>= λ acc. ok (acc.0 ++ unmatched acc.1 0 rs)

  unfoldable pub full_rows : List D → List D → Result E (List C × List ℕ)
  full_rows [] rs = ok ([], [])
  full_rows (l ∷ ls) rs =
      let rest = full_rows ls rs in
      join_row l 0 rs >>= λ row. rest >>= λ acc.
      ok (or_alone (docs_of row) (combine (some l) none) ++ acc.0, indices_of row ++ acc.1)

  unfoldable pub full_join : List D → List D → Result E (List C)
  full_join ls rs = full_rows ls rs >>= λ acc. ok (acc.0 ++ unmatched acc.1 0 rs)

  abbrev pub perform_join : JoinType → List D → List D → Result E (List C)
  perform_join join_inner = inner_join
  perform_join join_left = left_join
  perform_join join_right = right_join
  perform_join join_full = full_join

-- What was sent, and the error that ended it.
abbrev pub Sent : Type 0 → Type 0 → Type 0
Sent E C = List C × Option E

module _ {E C : Type 0} where
  -- one part of the work, and then the next unless there was an error
  infixr 5 ◌then◌
  abbrev pub ◌then◌ : Sent E C → Sent E C → Sent E C
  (docs, some e) then next = (docs, some e)
  (docs, none) then (more, e) = (docs ++ more, e)
