-- ===== src/Query/Page.antt =====
-- core/query/helper.go, Paginate, and core/query/engine.go, computePaginationInfo: a page of the
-- records and what is told about it. `R` are the records. A slice out of bounds panics: `none`.
pub mod Laws
pub mod Tests
use Prim.Native.String.{String}
use text.Mathlib.Text.{◌==◌ as str_eq}
use go_anansi.Prelude.{
  ℕ, zero, suc, ◌+◌, ◌-◌, ◌/◌, ◌%◌, Bool, true, false, Option, none, some, List, [], ◌∷◌, length,
  take, drop, leb, ltb, ◌==◌, if◌then◌else◌,
}
use go_anansi.Prelude.Int.{ℤ, pos, negsuc, ◌+ℤ◌}
use go_anansi.Prelude.Result.{Result, ok, err}
use go_anansi.Query.{PaginationPtr, no_pagination, pagination}

pub data PageError : Type 0 where
  invalid_pagination_type : String → PageError

abbrev pub min : ℕ → ℕ → ℕ
min a b = if ltb a b then a else b

-- `min(end, total)`
abbrev pub clip : ℤ → ℕ → ℤ
clip (pos end) total = pos (min end total)
clip (negsuc n) total = negsuc n

abbrev pub or_zero : Option ℤ → ℤ
or_zero none = pos 0
or_zero (some n) = n

module _ {R : Type 0} where
  -- `records[start:end]`
  abbrev pub slice : List R → ℕ → ℤ → Option (List R)
  slice records start (negsuc n) = none
  slice records start (pos end) =
      if ltb end start then none else some (take (end - start) (drop start records))

  -- `offset` and `limit` are ints; the second result is the total of the `PaginationResult`.
  abbrev pub paginate_offset : List R → ℤ → ℤ → Option (Result PageError (List R × Option ℕ))
  paginate_offset records (negsuc n) limit = none
  paginate_offset records (pos offset) limit =
      if leb (length records) offset
      then some (ok ([], some (length records)))
      else (elim (slice records offset (clip (pos offset +ℤ limit) (length records))) [
        | none ↦ none
        | some page ↦ some (ok (page, some (length records)))
      ])

  unfoldable pub paginate : PaginationPtr → List R → Option (Result PageError (List R × Option ℕ))
  paginate no_pagination records = some (ok (records, none))
  paginate (pagination type limit offset c sort total) records =
      if str_eq type ""
      then some (ok (records, none))
      else if str_eq type "offset"
      then paginate_offset records (or_zero offset) limit
      else some (err (invalid_pagination_type type))

pub record PaginationInfo : Type 0 where
  pub number : ℤ
  pub size : ℕ
  pub count : ℕ
  pub total : ℕ
  pub pages : ℕ

abbrev pub negate : ℕ → ℤ
negate zero = pos 0
negate (suc n) = negsuc n

-- `a / b` of ints, which rounds towards zero
abbrev pub quotient : ℤ → ℕ → ℤ
quotient (pos a) b = pos (a / b)
quotient (negsuc a) b = negate (suc a / b)

abbrev pub page_count : ℕ → ℕ → ℕ
page_count total limit = if total % limit == 0 then total / limit else total / limit + 1

abbrev pub single_page : ℕ → ℕ → PaginationInfo
single_page count total = record {
  number = pos 1;
  size = min count total;
  count = count;
  total = total;
  pages = 1;
}

-- `limit` is positive.
abbrev pub numbered_page : ℤ → ℕ → ℕ → ℕ → PaginationInfo
numbered_page offset limit count total = record {
  number = quotient offset limit +ℤ pos 1;
  size = min count limit;
  count = count;
  total = total;
  pages = page_count total limit;
}

abbrev pub info_of : String → ℤ → ℤ → ℕ → ℕ → Option PaginationInfo
info_of type (negsuc n) offset count total = some (single_page count total)
info_of type (pos zero) offset count total = some (single_page count total)
info_of type (pos (suc limit)) offset count total =
    if str_eq type ""
    then some (single_page count total)
    else if str_eq type "cursor"
    then none
    else some (numbered_page offset (suc limit) count total)

unfoldable pub compute_pagination_info : PaginationPtr → ℕ → Option ℕ → Option PaginationInfo
compute_pagination_info p count none = none
compute_pagination_info no_pagination count (some total) = some (single_page count total)
compute_pagination_info (pagination type limit offset c sort t) count (some total) =
    info_of type limit (or_zero offset) count total
