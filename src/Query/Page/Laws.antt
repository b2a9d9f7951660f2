-- ===== src/Query/Page/Laws.antt =====
-- core/query/helper.go, Paginate, and core/query/engine.go, computePaginationInfo: the pages of a
-- collection, read one after the other.
use native.Mathlib.Nat.{div-add-mod', mod-lt, mul-div_cancel, suc-mul, lt_of_mul-lt-mul_right}
use go_anansi.Prelude.{
  ℕ, zero, suc, ◌+◌, ◌-◌, ◌*◌, ◌/◌, ◌%◌, ◌≤◌, ◌<◌, false, Option, none, some, List, [], ◌∷◌, ◌++◌,
  length, take, drop, leb, ltb, ◌==◌, ◌≡◌, refl, ap, ◌∙◌, sym, arith, Bool-cases, inl, inr, leb→le,
}
use go_anansi.Prelude.Int.{pos, ◌+ℤ◌}
use go_anansi.Prelude.Result.{Result, ok, err}
use go_anansi.Registry.Pages.{◌>>=?◌}
use go_anansi.Query.{PaginationPtr, pagination, no_cursor}
use go_anansi.Query.Page.{
  PageError, min, clip, slice, paginate, PaginationInfo, compute_pagination_info, page_count,
}

-- page `k`, counted from 0, of `limit` records
abbrev pub page : ℕ → ℕ → PaginationPtr
page limit k = pagination "offset" (pos limit) (some (pos (k * limit))) no_cursor [] none

module _ {R : Type 0} where
  abbrev pub records_of : Result PageError (List R × Option ℕ) → Option (List R)
  records_of (ok r) = some r.0
  records_of (err e) = none

  -- What a client gets that reads `n` pages from page `k` on.
  unfoldable pub read_pages : ℕ → ℕ → ℕ → List R → Option (List R)
  read_pages limit zero k records = some []
  read_pages limit (suc n) k records =
      let rest = read_pages limit n (suc k) records in
      paginate (page limit k) records >>=? records_of >>=? λ docs.
      rest >>=? λ more. some (docs ++ more)

  length-drop : (n : ℕ) (xs : List R) → length (drop n xs) ≡ length xs - n
  length-drop zero xs = omega arith
  length-drop (suc n) [] = omega arith
  length-drop (suc n) (x ∷ xs) = omega (arith, length-drop n xs)

  take_all : (n : ℕ) (xs : List R) → length xs ≤ n → take n xs ≡ xs
  take_all zero [] h = refl
  take_all zero (x ∷ xs) h = absurd (omega arith)
  take_all (suc n) [] h = refl
  take_all (suc n) (x ∷ xs) h = ap (λ (ys : List R). x ∷ ys) (take_all n xs (omega arith))

  drop_all : (n : ℕ) (xs : List R) → length xs ≤ n → drop n xs ≡ []
  drop_all zero [] h = refl
  drop_all zero (x ∷ xs) h = absurd (omega arith)
  drop_all (suc n) [] h = refl
  drop_all (suc n) (x ∷ xs) h = drop_all n xs (omega arith)

  drop_nil : (n : ℕ) → drop {A = R} n [] ≡ []
  drop_nil zero = refl
  drop_nil (suc n) = refl

  take_nil : (n : ℕ) → take {A = R} n [] ≡ []
  take_nil zero = refl
  take_nil (suc n) = refl

  drop-drop : (n m : ℕ) (xs : List R) → drop m (drop n xs) ≡ drop (n + m) xs
  drop-drop zero m xs = ap (λ k. drop k xs) {x = m} {y = 0 + m} (omega arith)
  drop-drop (suc n) m [] = drop_nil m ∙ sym (drop_nil (suc n + m))
  drop-drop (suc n) m (x ∷ xs) =
      drop-drop n m xs ∙ ap (λ k. drop k (x ∷ xs)) {x = suc (n + m)} {y = suc n + m} (omega arith)

  take-take : (n m : ℕ) (xs : List R) → take n xs ++ take m (drop n xs) ≡ take (n + m) xs
  take-take zero m xs = ap (λ k. take k xs) {x = m} {y = 0 + m} (omega arith)
  take-take (suc n) m [] = ap (λ (ys : List R). ys) (take_nil m) ∙ sym (take_nil (suc n + m))
  take-take (suc n) m (x ∷ xs) =
      ap (λ (ys : List R). x ∷ ys) (take-take n m xs)
      ∙ ap (λ k. take k (x ∷ xs)) {x = suc (n + m)} {y = suc n + m} (omega arith)

  take_clipped :
      (start limit : ℕ) (xs : List R)
      → start < length xs
      → take (min (start + limit) (length xs) - start) (drop start xs) ≡ take limit (drop start xs)
  take_clipped start limit xs h = elim (Bool-cases (ltb (start + limit) (length xs))) [
    | inl e ↦
        rw e
          (ap (λ n. take n (drop start xs)) {x = start + limit - start} {y = limit} (omega arith))
    | inr e ↦
        let rest : length (drop start xs) ≡ length xs - start = length-drop start xs in
        let small : length xs ≤ start + limit = ground (arith, e) in
        rw e (
          take_all (length xs - start) (drop start xs) (omega (arith, rest))
          ∙ sym (take_all limit (drop start xs) (omega (arith, rest))))
  ]

  slice_lem :
      (start limit : ℕ) (xs : List R)
      → start < length xs
      → slice xs start (clip (pos (start + limit)) (length xs)) ≡ some (take limit (drop start xs))
  slice_lem start limit xs h =
      let later : ltb (min (start + limit) (length xs)) start ≡ false = ground arith in
      rw (later, take_clipped start limit xs h) refl

  -- what a page holds
  paginate_lem :
      (limit k : ℕ) (records : List R)
      → paginate (page limit k) records
        ≡ some (ok (take limit (drop (k * limit) records), some (length records)))
  unfolding paginate
  paginate_lem limit k records = elim (Bool-cases (leb (length records) (k * limit))) [
    | inl h ↦ rw (h, drop_all (k * limit) records (leb→le _ _ h), take_nil limit) refl
    | inr h ↦
        let end : pos (k * limit) +ℤ pos limit ≡ pos (k * limit + limit) = ground arith in
        rw (h, end, slice_lem (k * limit) limit records (ground (arith, h))) refl
  ]

  read_pages_lem :
      (limit n k : ℕ) (records : List R)
      → read_pages limit n k records ≡ some (take (n * limit) (drop (k * limit) records))
  unfolding read_pages
  read_pages_lem limit zero k records =
      ap (λ n. some (take n (drop (k * limit) records))) {x = 0} {y = 0 * limit} (omega arith)
  read_pages_lem limit (suc n) k records =
      let start : drop (suc k * limit) records ≡ drop limit (drop (k * limit) records) =
        ap (λ n. drop n records) {x = suc k * limit} {y = k * limit + limit} (omega arith)
        ∙ sym (drop-drop (k * limit) limit records) in
      rw (paginate_lem limit k records, read_pages_lem limit n (suc k) records, start)
        (ap some (
          take-take limit (n * limit) (drop (k * limit) records)
          ∙ ap (λ n. take n (drop (k * limit) records)) {x = limit + n * limit} {y = suc n * limit}
              (omega arith)))

  -- Reading offset pages of one limit one after the other, as many as hold all records, succeeds
  -- and gives all records in their order.
  pub read_pages-all :
      (limit n : ℕ) (records : List R)
      → length records ≤ n * limit
      → read_pages limit n 0 records ≡ some records
  read_pages-all limit n records h =
      read_pages_lem limit n 0 records
      ∙ ap (λ k. some (take (n * limit) (drop k records))) {x = 0 * limit} {y = 0} (omega arith)
      ∙ ap some (take_all (n * limit) records h)

page_count_lem :
    (total limit : ℕ)
    → 0 < limit
    → (total ≤ page_count total limit * limit) × (page_count total limit * limit < total + limit)
page_count_lem total limit h =
    let parts = div-add-mod' total limit in
    let small = mod-lt total h in
    elim (Bool-cases (total % limit == 0)) [
      | inl e ↦
          let exact : total % limit ≡ 0 = ground (arith, e) in
          rw e (omega (arith, parts, exact), omega (arith, parts, h))
      | inr e ↦
          let some_left : 0 < total % limit = ground (arith, e) in
          let next = suc-mul (total / limit) limit in
          let plus : (total / limit + 1) * limit ≡ total / limit * limit + limit =
            omega (arith, next) in
          rw e (omega (arith, parts, small, plus), omega (arith, parts, some_left, plus))
    ]

-- For an offset of k times a positive limit that is below the total, the page has number k + 1,
-- which is not above the number of pages, and that many pages are enough for the total and no fewer
-- are.
pub compute_pagination_info_lem :
    (limit k count total : ℕ)
    → 0 < limit
    → k * limit < total
    → (info : PaginationInfo) × (compute_pagination_info (page limit k) count (some total)
        ≡ some info)
      × (info.number ≡ pos (suc k))
      × (suc k ≤ info.pages)
      × (total ≤ info.pages * limit)
      × (info.pages * limit < total + limit)
unfolding compute_pagination_info
compute_pagination_info_lem zero k count total h g = absurd (omega arith)
compute_pagination_info_lem (suc m) k count total h g =
    let (high, low) = page_count_lem total (suc m) h in
    let below : k < page_count total (suc m) =
      lt_of_mul-lt-mul_right (suc m) (omega (arith, g, high)) in
    let number : k * suc m / suc m ≡ k = mul-div_cancel k h in
    (_, refl, ap (λ n. pos n +ℤ pos 1) number ∙ ground arith, omega (arith, below), high, low)
