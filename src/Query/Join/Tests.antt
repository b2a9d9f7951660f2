-- ===== src/Query/Join/Tests.antt =====
-- core/query/helper.go, Join and JoinStreams: a full join of numbers that are equal.
use mathlib.Core.List.{Perm}
use go_anansi.Prelude.{ℕ, Bool, false, Option, none, some, List, [], ◌∷◌, ◌==◌, ◌≡◌, refl}
use go_anansi.Prelude.Result.{Result, ok}
use go_anansi.Query.Join.{
  Combined, combine_docs, join_full, perform_join, full_join, full_rows, join_row, unmatched,
}
use go_anansi.Query.Join.Streams.{stream_join}
use go_anansi.Query.Join.Agree.{stream_join-perform_join}

abbrev combine : Option ℕ → Option ℕ → Combined ℕ
combine l r = combine_docs "left" l "right" r

abbrev equal_docs : Combined ℕ → Bool
equal_docs ((n, some a) ∷ (m, some b) ∷ []) = a == b
equal_docs _ = false

abbrev holds : Combined ℕ → Result ℕ Bool
holds c = ok (equal_docs c)

joined :
    perform_join combine holds join_full (1 ∷ 2 ∷ []) (2 ∷ 3 ∷ [])
    ≡ ok (combine (some 1) none ∷ combine (some 2) (some 2) ∷ combine none (some 3) ∷ [])
unfolding combine_docs full_join full_rows join_row unmatched
joined = refl

stream_join-perform_join_example :
    (docs : List (Combined ℕ)) × (sent : List (Combined ℕ)) × (perform_join combine holds join_full
        (1 ∷ 2 ∷ [])
        (2 ∷ 3 ∷ [])
      ≡ ok docs)
    × (stream_join combine holds none join_full (1 ∷ 2 ∷ []) (2 ∷ 3 ∷ []) ≡ (sent, none))
    × Perm sent docs
stream_join-perform_join_example =
    stream_join-perform_join combine holds equal_docs (λ c. refl) join_full (1 ∷ 2 ∷ [])
      (2 ∷ 3 ∷ [])
