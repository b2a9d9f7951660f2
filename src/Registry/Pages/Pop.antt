-- ===== src/Registry/Pages/Pop.antt =====
-- Popping the last element off the pages of core/bits/registry.go, by page and offset.
use go_anansi.Prelude.{
  ℕ, zero, suc, ◌+◌, ◌*◌, ◌≤◌, ◌<◌, ◌≡◌, ◌⊎◌, inl, inr, refl, sym, ap, ◌∙◌, arith, Bool, true, ◌&&◌,
  Option, none, some, List, [], ◌∷◌, ◌++◌, length, get_elem?, take, ltb, ◌==◌, if◌then◌else◌,
}
use go_anansi.Registry.Pages.{page_size, set_elem?, ◌>>=?◌}
use go_anansi.Registry.Pages.Flat.{IsPaged, flat}
use mathlib.Core.List.{append-nil}

module _ {ℓ} {A : Type ℓ} where
  -- The page at `p` cut to `off` elements; it goes if it is empty and `more` holds.
  unfoldable pub pop_at : Bool → List (List A) → ℕ → ℕ → Option (List (List A))
  pop_at more pages p off = get_elem? pages p >>=? λ page.
      if (length (take off page) == 0) && more
      then some (take p pages)
      else set_elem? pages p (take off page)

  length-take : (n : ℕ) (xs : List A) → n ≤ length xs → length (take n xs) ≡ n
  length-take zero xs h = refl
  length-take (suc n) [] h = absurd (omega arith)
  length-take (suc n) (x ∷ xs) h = omega (arith, length-take n xs (omega arith))

  take_right : (xs ys : List A) (k : ℕ) → take (length xs + k) (xs ++ ys) ≡ xs ++ take k ys
  take_right [] ys k = ap (λ (t : ℕ). take t ys) {y = k} (omega arith)
  take_right (x ∷ xs) ys k =
      ap (λ (t : ℕ). take t (x ∷ xs ++ ys)) {y = suc (length xs + k)} (omega arith)
      ∙ ap (λ (l : List A). x ∷ l) (take_right xs ys k)

  behind_pop :
      (more : Bool) (page : List A) (rest : List (List A)) (p off : ℕ)
      → pop_at more (page ∷ rest) (suc p) off
        ≡ (pop_at more rest p off >>=? λ new. some (page ∷ new))
  unfolding pop_at
  behind_pop more page rest p off = go (get_elem? rest p)
    where
      go :
          (o : Option (List A))
          → (o >>=? λ t.
              if (length (take off t) == 0) && more
              then some (page ∷ take p rest)
              else set_elem? (page ∷ rest) (suc p) (take off t))
            ≡ ((o >>=? λ t.
                  if (length (take off t) == 0) && more
                  then some (take p rest)
                  else set_elem? rest p (take off t))
                >>=? λ new. some (page ∷ new))
      go none = refl
      go (some t) = ground arith

  on_top :
      (page : List A) (new : List (List A)) (n k : ℕ)
      → length page ≡ page_size
      → n ≡ page_size + k
      → (new ≡ []) ⊎ (1 ≤ k)
      → IsPaged new k
      → IsPaged (page ∷ new) n
  unfolding IsPaged
  on_top page [] n k full e more v = (omega (arith, v), omega (arith, v))
  on_top page (next ∷ rest) n k full e (inl nothing) v = cc
  on_top page (next ∷ rest) n k full e (inr some_more) v = (full, (k, e, some_more, v))

  last_page :
      (page : List A) (off : ℕ)
      → flat (take off page ∷ []) ≡ take (0 * page_size + off) (flat (page ∷ []))
  unfolding flat
  last_page page off =
      append-nil (take off page)
      ∙ ap (λ (l : List A). take off l) (sym (append-nil page))
      ∙ ap (λ (t : ℕ). take t (page ++ [])) {x = off} (omega arith)

  -- A pop from the pages that follow another.
  pop_tail :
      (pages : List (List A)) (n p off : ℕ)
      → IsPaged pages n
      → off < page_size
      → n ≡ suc (p * page_size + off)
      → (new : List (List A)) × (pop_at true pages p off ≡ some new)
        × IsPaged new (p * page_size + off)
        × (flat new ≡ take (p * page_size + off) (flat pages))
        × ((new ≡ []) ⊎ (1 ≤ p * page_size + off))
  unfolding IsPaged flat pop_at
  pop_tail [] n p off v ho h = absurd (omega (arith, v))
  pop_tail (page ∷ []) n zero zero (e, most) ho h = ([], refl, omega arith, refl, inl refl)
  pop_tail (page ∷ []) n zero (suc off) (e, most) ho h =
      let kept : length (take (suc off) page) ≡ suc off =
        length-take (suc off) page (omega arith) in
      (
        take (suc off) page ∷ [],
        rw kept (ground arith),
        (omega (arith, kept), omega arith),
        last_page page (suc off),
        inr (omega arith),
      )
  pop_tail (page ∷ []) n (suc p) off (e, most) ho h = absurd (omega arith)
  pop_tail (page ∷ next ∷ rest) n zero off (full, (m, e, more, v)) ho h = absurd (omega arith)
  pop_tail (page ∷ next ∷ rest) n (suc p) off (full, (m, e, more, v)) ho h =
      let (new, popped, paged, same, left) = pop_tail (next ∷ rest) m p off v ho (omega arith) in
      (
        page ∷ new,
        behind_pop true page (next ∷ rest) p off
            ∙ ap (λ (o : Option (List (List A))). o >>=? λ new. some (page ∷ new)) popped,
        on_top page new (suc p * page_size + off) (p * page_size + off) full (omega arith) left
            paged,
        ap (λ (l : List A). page ++ l) same
            ∙ sym (take_right page (next ++ flat rest) (p * page_size + off))
            ∙ ap (λ (t : ℕ). take t (page ++ (next ++ flat rest)))
                {x = length page + (p * page_size + off)} (omega (arith, full)),
        inr (omega arith),
      )

  -- A pop succeeds and takes the last element off the flat list.
  pub pop_at_lem :
      (pages : List (List A)) (n p off : ℕ)
      → IsPaged pages n
      → off < page_size
      → n ≡ suc (p * page_size + off)
      → (new : List (List A)) × (pop_at (ltb 1 (length pages)) pages p off ≡ some new)
        × IsPaged new (p * page_size + off)
        × (flat new ≡ take (p * page_size + off) (flat pages))
  unfolding IsPaged pop_at
  pop_at_lem [] n p off v ho h = absurd (omega (arith, v))
  pop_at_lem (page ∷ []) n zero off (e, most) ho h =
      let kept : length (take off page) ≡ off = length-take off page (omega arith) in
      (take off page ∷ [], ground arith, (omega (arith, kept), omega arith), last_page page off)
  pop_at_lem (page ∷ []) n (suc p) off (e, most) ho h = absurd (omega arith)
  pop_at_lem (page ∷ next ∷ rest) n p off v ho h =
      let several : ltb 1 (length (page ∷ next ∷ rest)) ≡ true = ground arith in
      let (new, popped, paged, same, left) = pop_tail (page ∷ next ∷ rest) n p off v ho h in
      (new, rw several popped, paged, same)

  -- The page of the last element holds all elements before it.
  pub last_page_room :
      (pages : List (List A)) (n p off : ℕ)
      → IsPaged pages n
      → off < page_size
      → n ≡ suc (p * page_size + off)
      → (page : List A) × (get_elem? pages p ≡ some page) × (off ≤ length page)
  unfolding IsPaged
  last_page_room [] n p off v ho h = absurd (omega (arith, v))
  last_page_room (page ∷ []) n zero off (e, most) ho h = (page, refl, omega arith)
  last_page_room (page ∷ []) n (suc p) off (e, most) ho h = absurd (omega arith)
  last_page_room (page ∷ next ∷ rest) n zero off (full, (m, e, more, v)) ho h = absurd (omega arith)
  last_page_room (page ∷ next ∷ rest) n (suc p) off (full, (m, e, more, v)) ho h =
      last_page_room (next ∷ rest) m p off v ho (omega arith)
