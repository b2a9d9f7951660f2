-- ===== src/Query/Page/Tests.antt =====
-- core/query/helper.go, Paginate, and core/query/engine.go, computePaginationInfo: three records in
-- pages of two.
use go_anansi.Prelude.{ℕ, ◌+◌, ◌*◌, ◌≤◌, ◌<◌, some, List, [], ◌∷◌, ◌≡◌, refl, arith}
use go_anansi.Prelude.Int.{pos}
use go_anansi.Prelude.Result.{ok}
use go_anansi.Query.Page.{paginate, PaginationInfo, compute_pagination_info}
use go_anansi.Query.Page.Laws.{page, read_pages, read_pages-all, compute_pagination_info_lem}

abbrev records : List ℕ
records = 7 ∷ 8 ∷ 9 ∷ []

second_page : paginate (page 2 1) records ≡ some (ok (9 ∷ [], some 3))
unfolding paginate
second_page = refl

read_pages-all_example : read_pages 2 2 0 records ≡ some records
read_pages-all_example = read_pages-all 2 2 records (omega arith)

compute_pagination_info_lem_example :
    (info : PaginationInfo) × (compute_pagination_info (page 2 1) 1 (some 3) ≡ some info)
    × (info.number ≡ pos 2)
    × (2 ≤ info.pages)
    × (3 ≤ info.pages * 2)
    × (info.pages * 2 < 3 + 2)
compute_pagination_info_lem_example =
    compute_pagination_info_lem 2 1 1 3 (omega arith) (omega arith)
