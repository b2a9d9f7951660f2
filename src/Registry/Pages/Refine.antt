-- ===== src/Registry/Pages/Refine.antt =====
-- A run of updates on the paged arrays of core/bits/registry.go against the same run on one flat
-- list.
use go_anansi.Prelude.{
  ℕ, zero, suc, ◌-◌, ◌<◌, ◌≡◌, refl, sym, ap, ◌∙◌, arith, Option, some, List, [], ◌∷◌, ◌++◌, length,
  take, length-append, inl, inr, Option-cases,
}
use go_anansi.Registry.Pages.{Pages, set, append, pop, ◌>>=?◌, set_elem?}
use go_anansi.Registry.Pages.Flat.{IsPaged, flat, set_elem_lem}
use go_anansi.Registry.Pages.Laws.{IsValid, elements, set-elements, append-elements, pop-elements}

pub data Update {ℓ} (A : Type ℓ) : Type ℓ where
  appending : A → Update A
  setting : ℕ → A → Update A
  popping : Update A

module _ {ℓ} {A : Type ℓ} where
  unfoldable pub update : Update A → Pages A → Option (Pages A)
  update (appending x) pe = append pe x
  update (setting i x) pe = set pe i x
  update popping pe = pop pe

  unfoldable pub update_list : Update A → List A → Option (List A)
  update_list (appending x) xs = some (xs ++ (x ∷ []))
  update_list (setting i x) xs = set_elem? xs i x
  update_list popping xs = some (take (length xs - 1) xs)

  unfoldable pub update_all : List (Update A) → Pages A → Option (Pages A)
  update_all [] pe = some pe
  update_all (u ∷ us) pe = update u pe >>=? update_all us

  unfoldable pub update_list_all : List (Update A) → List A → Option (List A)
  update_list_all [] xs = some xs
  update_list_all (u ∷ us) xs = update_list u xs >>=? update_list_all us

  length-flat : (pages : List (List A)) (n : ℕ) → IsPaged pages n → length (flat pages) ≡ n
  unfolding IsPaged flat
  length-flat [] n v = sym v
  length-flat (page ∷ []) n (e, most) = omega (arith, length-append page [])
  length-flat (page ∷ next ∷ rest) n (full, (m, e, more, v)) =
      omega (arith, length-append page (flat (next ∷ rest)), length-flat (next ∷ rest) m v)

  pub length-elements : (pe : Pages A) → IsValid pe → length (elements pe) ≡ pe.length
  unfolding IsValid elements
  length-elements pe v = length-flat pe.pages pe.length v

  set_in_range :
      (xs : List A) (i : ℕ) (x : A) (ys : List A) → set_elem? xs i x ≡ some ys → i < length xs
  set_in_range [] i x ys h = cc
  set_in_range (y ∷ xs) zero x ys h = omega arith
  set_in_range (y ∷ xs) (suc i) x ys h = elim (Option-cases (set_elem? xs i x)) [
    | inl e ↦ ground (arith, e, h)
    | inr (zs, e) ↦ omega (arith, set_in_range xs i x zs e)
  ]

  some-inj : (a b : List A) → ◌≡◌ {A = Option (List A)} (some a) (some b) → a ≡ b
  some-inj a b h = cc

  update_lem :
      (u : Update A) (pe : Pages A) (xs : List A)
      → IsValid pe
      → update_list u (elements pe) ≡ some xs
      → (new : Pages A) × (update u pe ≡ some new) × IsValid new × (elements new ≡ xs)
  unfolding update update_list
  update_lem (appending x) pe xs v h =
      let (new, done, valid, same, n) = append-elements pe x v in
      (new, done, valid, some-inj _ _ (ap some same ∙ h))
  update_lem (setting i x) pe xs v h =
      let below = set_in_range (elements pe) i x xs h in
      let (new, done, valid, same, n) =
        set-elements pe i x v (omega (arith, length-elements pe v, below)) in
      (new, done, valid, some-inj _ _ (ap some same ∙ sym (set_elem_lem _ i x below) ∙ h))
  update_lem popping pe xs v h =
      let (new, done, valid, same, n) = pop-elements pe v in
      (
        new,
        done,
        valid,
        some-inj _ _ (
            ap some (same ∙ ap (λ (t : ℕ). take (t - 1) (elements pe)) (sym (length-elements pe v)))
            ∙ h),
      )

  -- A run of appends, writes and pops on a well paged array never panics where the same run on the
  -- flat list of its elements stays in range, ends in a well paged array, and its elements are what
  -- the run on the list gives.
  pub update_all_refines :
      (us : List (Update A)) (pe : Pages A) (xs : List A)
      → IsValid pe
      → update_list_all us (elements pe) ≡ some xs
      → (new : Pages A) × (update_all us pe ≡ some new) × IsValid new × (elements new ≡ xs)
  unfolding update_all update_list_all
  update_all_refines [] pe xs v h = (pe, refl, v, some-inj _ _ h)
  update_all_refines (u ∷ us) pe xs v h = elim (Option-cases (update_list u (elements pe))) [
    | inl e ↦ ground (arith, e, h)
    | inr (ys, e) ↦
        let (mid, done, valid, same) = update_lem u pe ys v e in
        let rest : update_list_all us (elements mid) ≡ some xs =
          ap (update_list_all us) same ∙ ground (arith, e, h) in
        let (new, run_on, valid_on, same_on) = update_all_refines us mid xs valid rest in
        (new, rw done run_on, valid_on, same_on)
  ]
