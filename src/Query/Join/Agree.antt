-- ===== src/Query/Join/Agree.antt =====
-- core/query/helper.go: the streaming joins against the joins of whole collections.
use mathlib.Core.List.{Perm, Permᴰ}
use mathlib.Core.List.Permᴰ
use go_anansi.Prelude.{List, ◌++◌, Bool, Option, none, ◌≡◌, sym}
use go_anansi.Prelude.Result.{Result, ok}
use go_anansi.Query.Join.{JoinType, join_inner, join_left, join_right, join_full, perform_join}
use go_anansi.Query.Join.Streams.{stream_join}
use go_anansi.Query.Join.Plain.{gather, lonely, pair}
use go_anansi.Query.Join.Results.{
  hits, hits_right, padded, left_alone, right_alone, inner_join_lem, left_join_lem, right_join_lem,
  full_join_lem,
}
use go_anansi.Query.Join.Sending.{stream_inner_lem, stream_left_lem, stream_right_lem, padded_right}
use go_anansi.Query.Join.Unmatched.{stream_full_lem}
use go_anansi.Query.Join.Shuffle.{gather_alone, gather_columns, same, assoc}

module _ {D E C : Type 0} (combine : Option D → Option D → C) (holds : C → Result E Bool)
    (test : C → Bool) (decided : (c : C) → holds c ≡ ok (test c)) where
  right_order :
      (ls rs : List D)
      → Permᴰ (gather (padded_right combine holds test decided ls) rs) (
          gather (hits combine holds test decided rs) ls
          ++ lonely
              (hits_right combine holds test decided ls)
              (right_alone combine holds test decided)
              rs)
  right_order ls rs =
      let alone =
        lonely (hits_right combine holds test decided ls) (right_alone combine holds test decided)
          rs in
      Permᴰ.trans
        (gather_alone (hits_right combine holds test decided ls)
          (right_alone combine holds test decided) rs)
        (Permᴰ.append_right alone
          (Permᴰ.symm (gather_columns (pair combine holds test decided) ls rs)))

  full_order :
      (ls rs : List D)
      → Permᴰ
          (gather (hits combine holds test decided rs) ls
            ++ (lonely
                  (hits combine holds test decided rs)
                  (left_alone combine holds test decided)
                  ls
                ++ lonely
                    (hits_right combine holds test decided ls)
                    (right_alone combine holds test decided)
                    rs))
          (gather (padded combine holds test decided rs) ls
            ++ lonely
                (hits_right combine holds test decided ls)
                (right_alone combine holds test decided)
                rs)
  full_order ls rs =
      let found = gather (hits combine holds test decided rs) ls in
      let lefts =
        lonely (hits combine holds test decided rs) (left_alone combine holds test decided) ls in
      let rights =
        lonely (hits_right combine holds test decided ls) (right_alone combine holds test decided)
          rs in
      Permᴰ.trans (same (sym (assoc found lefts rights))) (
        Permᴰ.append_right rights (
          Permᴰ.symm (
            gather_alone (hits combine holds test decided rs)
              (left_alone combine holds test decided) ls)))

  -- For every type of join and a condition that evaluates without an error, the join of two
  -- collections succeeds, and the streaming join without a projection sends, without an error, the
  -- same documents up to their order.
  pub stream_join-perform_join :
      (t : JoinType) (ls rs : List D)
      → (docs : List C) × (sent : List C) × (perform_join combine holds t ls rs ≡ ok docs)
        × (stream_join combine holds none t ls rs ≡ (sent, none))
        × Perm sent docs
  stream_join-perform_join join_inner ls rs = (
    _,
    _,
    inner_join_lem combine holds test decided ls rs,
    stream_inner_lem combine holds test decided ls rs,
    ∣ Permᴰ.refl _ ∣₁,
  )
  stream_join-perform_join join_left ls rs = (
    _,
    _,
    left_join_lem combine holds test decided ls rs,
    stream_left_lem combine holds test decided ls rs,
    ∣ Permᴰ.refl _ ∣₁,
  )
  stream_join-perform_join join_right ls rs = (
    _,
    _,
    right_join_lem combine holds test decided ls rs,
    stream_right_lem combine holds test decided ls rs,
    ∣ right_order ls rs ∣₁,
  )
  stream_join-perform_join join_full ls rs = (
    _,
    _,
    full_join_lem combine holds test decided ls rs,
    stream_full_lem combine holds test decided ls rs,
    ∣ full_order ls rs ∣₁,
  )
