-- ===== src/Registry/Pages/Updates.antt =====
-- Writing, appending and popping in the pages of core/bits/registry.go, by page and offset.
use go_anansi.Prelude.{
  ℕ, zero, suc, ◌+◌, ◌*◌, ◌≤◌, ◌<◌, ◌≡◌, inl, inr, refl, sym, ap, ◌∙◌, arith, true, false, Option,
  none, some, List, [], ◌∷◌, ◌++◌, length, get_elem?, ltb, Bool-cases, length-append,
}
use mathlib.Core.List.{append_assoc, append-nil}
use go_anansi.Registry.Pages.{page_size, set_elem?, ◌>>=?◌, add_to_page}
use go_anansi.Registry.Pages.Flat.{IsPaged, flat, write_at, add_at, replace, set_elem_lem}
use go_anansi.Registry.Pages.Flat.{length-replace, replace_left, replace_right}

module _ {ℓ} {A : Type ℓ} where
  put_page : List A → List (List A) → Option (List (List A))
  put_page page rest = some (page ∷ rest)

  -- What an update does to the pages behind the first one.
  behind :
      (page : List A) (rest : List (List A)) (p : ℕ) (o : Option (List A))
      → (o >>=? λ t. set_elem? (page ∷ rest) (suc p) t)
        ≡ ((o >>=? λ t. set_elem? rest p t) >>=? put_page page)
  unfolding put_page
  behind page rest p none = refl
  behind page rest p (some t) = refl

  behind_update :
      (page : List A) (rest : List (List A)) (p : ℕ) (f : List A → Option (List A))
      (o : Option (List A))
      → (o >>=? λ t. f t >>=? λ u. set_elem? (page ∷ rest) (suc p) u)
        ≡ ((o >>=? λ t. f t >>=? λ u. set_elem? rest p u) >>=? put_page page)
  behind_update page rest p f none = refl
  behind_update page rest p f (some t) = behind page rest p (f t)

  write_first :
      (page : List A) (rest : List (List A)) (off : ℕ) (x : A)
      → off < length page
      → write_at (page ∷ rest) 0 off x ≡ some (replace page off x ∷ rest)
  unfolding write_at
  write_first page rest off x h = rw (set_elem_lem page off x h)

  flat_first :
      (page : List A) (rest : List (List A)) (off : ℕ) (x : A)
      → off < length page
      → flat (replace page off x ∷ rest) ≡ replace (flat (page ∷ rest)) (0 * page_size + off) x
  unfolding flat
  flat_first page rest off x h =
      sym (replace_left page (flat rest) off x h)
      ∙ ap (λ (t : ℕ). replace (page ++ flat rest) t x) {x = off} (omega arith)

  flat_next :
      (page : List A) (rest new : List (List A)) (p off : ℕ) (x : A)
      → length page ≡ page_size
      → flat new ≡ replace (flat rest) (p * page_size + off) x
      → flat (page ∷ new) ≡ replace (flat (page ∷ rest)) (suc p * page_size + off) x
  unfolding flat
  flat_next page rest new p off x full e =
      ap (λ (l : List A). page ++ l) e
      ∙ sym (replace_right page (flat rest) (p * page_size + off) x)
      ∙ ap (λ (t : ℕ). replace (page ++ flat rest) t x) {x = length page + (p * page_size + off)}
          (omega (arith, full))

  on_top :
      (page : List A) (new : List (List A)) (n m : ℕ)
      → length page ≡ page_size
      → n ≡ page_size + m
      → 1 ≤ m
      → IsPaged new m
      → IsPaged (page ∷ new) n
  unfolding IsPaged
  on_top page [] n m full e more v = absurd (omega (arith, v, more))
  on_top page (next ∷ rest) n m full e more v = (full, (m, e, more, v))

  -- A write in range succeeds and replaces one element of the flat list.
  pub write_at_lem :
      (pages : List (List A)) (n p off : ℕ) (x : A)
      → IsPaged pages n
      → off < page_size
      → p * page_size + off < n
      → (new : List (List A)) × (write_at pages p off x ≡ some new)
        × IsPaged new n
        × (flat new ≡ replace (flat pages) (p * page_size + off) x)
  unfolding IsPaged write_at put_page
  write_at_lem [] n p off x v ho h = absurd (omega arith)
  write_at_lem (page ∷ []) n (suc p) off x v ho h = absurd (omega arith)
  write_at_lem (page ∷ []) n zero off x (e, most) ho h = (
    replace page off x ∷ [],
    write_first page [] off x (omega arith),
    (length-replace page off x ∙ e, most),
    flat_first page [] off x (omega arith),
  )
  write_at_lem (page ∷ next ∷ rest) n zero off x (full, v) ho h = (
    replace page off x ∷ next ∷ rest,
    write_first page (next ∷ rest) off x (omega arith),
    (length-replace page off x ∙ full, v),
    flat_first page (next ∷ rest) off x (omega arith),
  )
  write_at_lem (page ∷ next ∷ rest) n (suc p) off x (full, (m, e, more, v)) ho h =
      let (new, written, paged, same) = write_at_lem (next ∷ rest) m p off x v ho (omega arith) in
      (
        page ∷ new,
        behind_update page (next ∷ rest) p (λ t. set_elem? t off x) (get_elem? (next ∷ rest) p)
            ∙ ap (λ (o : Option (List (List A))). o >>=? put_page page) written,
        on_top page new n m full e more paged,
        flat_next page (next ∷ rest) new p off x full same,
      )

  add_at_next :
      (page : List A) (rest : List (List A)) (p off : ℕ) (x : A)
      → add_at (page ∷ rest) (suc p) off x ≡ (add_at rest p off x >>=? put_page page)
  unfolding add_at put_page
  add_at_next page rest p off x = elim (Bool-cases (ltb p (length rest))) [
    | inl e ↦
        let e_suc : ltb (suc p) (suc (length rest)) ≡ true = ground (arith, e) in
        rw (e_suc, e) (behind_update page rest p (λ t. add_to_page t off x) (get_elem? rest p))
    | inr e ↦
        let e_suc : ltb (suc p) (suc (length rest)) ≡ false = ground (arith, e) in
        rw (e_suc, e) refl
  ]

  -- An append succeeds and adds the element at the end of the flat list.
  pub add_at_lem :
      (pages : List (List A)) (n p off : ℕ) (x : A)
      → IsPaged pages n
      → off < page_size
      → n ≡ p * page_size + off
      → (new : List (List A)) × (add_at pages p off x ≡ some new)
        × IsPaged new (n + 1)
        × (flat new ≡ flat pages ++ (x ∷ []))
  unfolding IsPaged flat add_at put_page
  add_at_lem [] n zero off x v ho h =
      ((x ∷ []) ∷ [], refl, (omega (arith, v), omega (arith, v)), refl)
  add_at_lem [] n (suc p) off x v ho h = absurd (omega (arith, v))
  add_at_lem (page ∷ []) n zero off x (e, most) ho h = (
    (page ++ (x ∷ [])) ∷ [],
    ground (arith, e),
    (omega (arith, length-append page (x ∷ [])), omega arith),
    append-nil _ ∙ ap (λ (l : List A). l ++ (x ∷ [])) (sym (append-nil page)),
  )
  add_at_lem (page ∷ []) n (suc zero) off x (e, most) ho h = (
    page ∷ (x ∷ []) ∷ [],
    refl,
    (omega arith, (1, omega arith, omega arith, (refl, omega arith))),
    ap (λ (l : List A). l ++ (x ∷ [])) (sym (append-nil page)),
  )
  add_at_lem (page ∷ []) n (suc (suc p)) off x (e, most) ho h = absurd (omega arith)
  add_at_lem (page ∷ next ∷ rest) n zero off x (full, (m, e, more, v)) ho h = absurd (omega arith)
  add_at_lem (page ∷ next ∷ rest) n (suc p) off x (full, (m, e, more, v)) ho h =
      let (new, added, paged, same) = add_at_lem (next ∷ rest) m p off x v ho (omega arith) in
      (
        page ∷ new,
        add_at_next page (next ∷ rest) p off x
            ∙ ap (λ (o : Option (List (List A))). o >>=? put_page page) added,
        on_top page new (n + 1) (m + 1) full (omega arith) (omega arith) paged,
        ap (λ (l : List A). page ++ l) same ∙ sym (append_assoc page (next ++ flat rest) (x ∷ [])),
      )
