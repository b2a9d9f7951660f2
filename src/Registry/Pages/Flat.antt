-- ===== src/Registry/Pages/Flat.antt =====
-- The paged arrays of core/bits/registry.go against one flat list: every operation does to the
-- pages what its namesake does to the list.
use go_anansi.Prelude.{
  ℕ, zero, suc, ◌+◌, ◌*◌, ◌≤◌, ◌<◌, ◌≡◌, ◌≢◌, refl, sym, ap, ◌∙◌, arith, Option, some, List, [],
  ◌∷◌, ◌++◌, length, get_elem?, ltb, if◌then◌else◌,
}
use go_anansi.Registry.Pages.{page_size, set_elem?}
use go_anansi.Registry.Pages.{◌>>=?◌, add_to_page}

module _ {ℓ} {A : Type ℓ} where
  -- All pages are full but the last, which is not empty where there is another.
  unfoldable pub IsPaged : List (List A) → ℕ → Type 0
  IsPaged [] n = n ≡ 0
  IsPaged (page ∷ []) n = (length page ≡ n) × (n ≤ page_size)
  IsPaged (page ∷ next ∷ rest) n =
      (length page ≡ page_size)
      × ((m : ℕ) × (n ≡ page_size + m) × (1 ≤ m) × IsPaged (next ∷ rest) m)

  -- The elements in order.
  unfoldable pub flat : List (List A) → List A
  flat [] = []
  flat (page ∷ rest) = page ++ flat rest

  pub get_elem_left :
      (xs ys : List A) (i : ℕ) → i < length xs → get_elem? (xs ++ ys) i ≡ get_elem? xs i
  get_elem_left [] ys i h = absurd (omega arith)
  get_elem_left (x ∷ xs) ys zero h = refl
  get_elem_left (x ∷ xs) ys (suc i) h = get_elem_left xs ys i (omega arith)

  pub get_elem_right :
      (xs ys : List A) (i : ℕ) → get_elem? (xs ++ ys) (length xs + i) ≡ get_elem? ys i
  get_elem_right [] ys i = ap (get_elem? ys) {y = i} (omega arith)
  get_elem_right (x ∷ xs) ys i =
      ap (get_elem? (x ∷ xs ++ ys)) {y = suc (length xs + i)} (omega arith) ∙ get_elem_right xs ys i

  -- The read, write, append and pop of an array at its page and the offset in it.
  unfoldable pub read_at : List (List A) → ℕ → ℕ → Option A
  read_at pages p off = get_elem? pages p >>=? λ page. get_elem? page off

  unfoldable pub write_at : List (List A) → ℕ → ℕ → A → Option (List (List A))
  write_at pages p off x = get_elem? pages p >>=? λ page.
      set_elem? page off x >>=? λ new_page. set_elem? pages p new_page

  unfoldable pub add_at : List (List A) → ℕ → ℕ → A → Option (List (List A))
  add_at pages p off x =
      if ltb p (length pages)
      then (get_elem? pages p >>=? λ page.
          add_to_page page off x >>=? λ new_page. set_elem? pages p new_page)
      else (some (pages ++ ((x ∷ []) ∷ [])))

  pub read_at_lem :
      (pages : List (List A)) (n p off : ℕ)
      → IsPaged pages n
      → off < page_size
      → p * page_size + off < n
      → read_at pages p off ≡ get_elem? (flat pages) (p * page_size + off)
  unfolding IsPaged flat read_at
  read_at_lem [] n p off v ho h = absurd (omega arith)
  read_at_lem (page ∷ []) n zero off (e, most) ho h =
      sym (get_elem_left page [] off (omega arith))
      ∙ ap (get_elem? (page ++ [])) {x = off} (omega arith)
  read_at_lem (page ∷ []) n (suc p) off v ho h = absurd (omega arith)
  read_at_lem (page ∷ next ∷ rest) n zero off (full, v) ho h =
      sym (get_elem_left page (next ++ flat rest) off (omega arith))
      ∙ ap (get_elem? (page ++ (next ++ flat rest))) {x = off} (omega arith)
  read_at_lem (page ∷ next ∷ rest) n (suc p) off (full, (m, e, more, v)) ho h =
      read_at_lem (next ∷ rest) m p off v ho (omega arith)
      ∙ sym (get_elem_right page (next ++ flat rest) (p * page_size + off))
      ∙ ap (get_elem? (page ++ (next ++ flat rest))) {x = length page + (p * page_size + off)}
          (omega arith)

  -- The list with the element at a position replaced.
  unfoldable pub replace : List A → ℕ → A → List A
  replace [] i x = []
  replace (y ∷ ys) zero x = x ∷ ys
  replace (y ∷ ys) (suc i) x = y ∷ replace ys i x

  pub set_elem_lem :
      (xs : List A) (i : ℕ) (x : A) → i < length xs → set_elem? xs i x ≡ some (replace xs i x)
  unfolding replace
  set_elem_lem [] i x h = absurd (omega arith)
  set_elem_lem (y ∷ ys) zero x h = refl
  set_elem_lem (y ∷ ys) (suc i) x h = rw (set_elem_lem ys i x (omega arith))

  pub length-replace : (xs : List A) (i : ℕ) (x : A) → length (replace xs i x) ≡ length xs
  unfolding replace
  length-replace [] i x = refl
  length-replace (y ∷ ys) zero x = refl
  length-replace (y ∷ ys) (suc i) x = omega (arith, length-replace ys i x)

  pub replace_left :
      (xs ys : List A) (i : ℕ) (x : A)
      → i < length xs
      → replace (xs ++ ys) i x ≡ replace xs i x ++ ys
  unfolding replace
  replace_left [] ys i x h = absurd (omega arith)
  replace_left (y ∷ xs) ys zero x h = refl
  replace_left (y ∷ xs) ys (suc i) x h =
      ap (λ (l : List A). y ∷ l) (replace_left xs ys i x (omega arith))

  pub replace_right :
      (xs ys : List A) (i : ℕ) (x : A) → replace (xs ++ ys) (length xs + i) x ≡ xs ++ replace ys i x
  unfolding replace
  replace_right [] ys i x = ap (λ (t : ℕ). replace ys t x) {y = i} (omega arith)
  replace_right (y ∷ xs) ys i x =
      ap (λ (t : ℕ). replace (y ∷ xs ++ ys) t x) {y = suc (length xs + i)} (omega arith)
      ∙ ap (λ (l : List A). y ∷ l) (replace_right xs ys i x)

  pub get_elem-replace :
      (xs : List A) (i : ℕ) (x : A) → i < length xs → get_elem? (replace xs i x) i ≡ some x
  unfolding replace
  get_elem-replace [] i x h = absurd (omega arith)
  get_elem-replace (y ∷ xs) zero x h = refl
  get_elem-replace (y ∷ xs) (suc i) x h = get_elem-replace xs i x (omega arith)

  pub get_elem-replace_other :
      (xs : List A) (i j : ℕ) (x : A) → i ≢ j → get_elem? (replace xs i x) j ≡ get_elem? xs j
  unfolding replace
  get_elem-replace_other [] i j x h = refl
  get_elem-replace_other (y ∷ xs) zero zero x h = absurd (h refl)
  get_elem-replace_other (y ∷ xs) zero (suc j) x h = refl
  get_elem-replace_other (y ∷ xs) (suc i) zero x h = refl
  get_elem-replace_other (y ∷ xs) (suc i) (suc j) x h =
      get_elem-replace_other xs i j x (λ e. h (ap suc e))
