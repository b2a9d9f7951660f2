-- ===== src/Registry/Ids/Probe.antt =====
-- Searches in the hash table of core/bits/registry.go: what an insertion does to them.
use go_anansi.Prelude.{
  ℕ, zero, suc, ◌<◌, ◌≡◌, ◌≢◌, ◌⊎◌, inl, inr, refl, sym, ap, ◌∙◌, arith, Option, none, some, List,
  [], ◌∷◌, length, get_elem?, ◌==◌, Bool-cases,
}
use go_anansi.Prelude.Int.{ℤ}
use go_anansi.Registry.Pages.Flat.{
  replace, length-replace, get_elem-replace, get_elem-replace_other,
}
use go_anansi.Registry.Ids.{
  Cell, occupied, Seen, stop_empty, stop_hit, pass_tomb, pass_other, out_of_range, see, next,
  find_from, find_step, place_from, place_step, first_after, Place, fresh, reused, updated,
}

abbrev pub index_of : Place → ℕ
index_of (fresh i) = i
index_of (reused i) = i
index_of (updated i) = i

pub Seen-cases :
    (s : Seen)
    → (s ≡ stop_empty)
      ⊎ ((s ≡ stop_hit) ⊎ ((s ≡ pass_tomb) ⊎ ((s ≡ pass_other) ⊎ (s ≡ out_of_range))))
Seen-cases stop_empty = inl refl
Seen-cases stop_hit = inr (inl refl)
Seen-cases pass_tomb = inr (inr (inl refl))
Seen-cases pass_other = inr (inr (inr (inl refl)))
Seen-cases out_of_range = inr (inr (inr (inr refl)))

see_self : (id : ℕ) (v : ℤ) → see id (some (occupied id v)) ≡ stop_hit
unfolding see
see_self id v = ground arith

see_other : (id k : ℕ) (v : ℤ) → k ≢ id → see k (some (occupied id v)) ≡ pass_other
unfolding see
see_other id k v h = ground arith

get_elem_range :
    (cells : List Cell) (i : ℕ) (s : Seen) (id : ℕ)
    → see id (get_elem? cells i) ≡ s
    → s ≢ out_of_range
    → i < length cells
unfolding see
get_elem_range [] i s id e h = absurd (h (sym e))
get_elem_range (c ∷ cells) zero s id e h = omega arith
get_elem_range (c ∷ cells) (suc i) s id e h = omega (arith, get_elem_range cells i s id e h)

-- One step of a search, with what follows exchanged.
pub step_past :
    (s : Seen) (i e : ℕ) (rest : Option (Option ℕ))
    → s ≢ stop_hit
    → find_step s i rest ≡ some (some e)
    → rest ≡ some (some e)
step_past stop_empty i e rest h p = absurd (ground (arith, p))
step_past stop_hit i e rest h p = absurd (h refl)
step_past pass_tomb i e rest h p = p
step_past pass_other i e rest h p = p
step_past out_of_range i e rest h p = cc

pub step_on :
    (s : Seen) (i e : ℕ) (rest new : Option (Option ℕ))
    → (rest ≡ some (some e) → new ≡ some (some e))
    → find_step s i rest ≡ some (some e)
    → find_step s i new ≡ some (some e)
step_on stop_empty i e rest new f p = p
step_on stop_hit i e rest new f p = p
step_on pass_tomb i e rest new f p = f p
step_on pass_other i e rest new f p = f p
step_on out_of_range i e rest new f p = p

-- One step of an insertion's search that is not at `t`.
place_on :
    (s : Seen) (first_tomb : Option ℕ) (i t : ℕ) (rest : Option Place) (p : Place)
    (new : Option (Option ℕ))
    → i ≢ t
    → index_of p ≡ t
    → (rest ≡ some p → (first_after s first_tomb i ≡ some t) ⊎ (new ≡ some (some t)))
    → place_step s first_tomb i rest ≡ some p
    → (first_tomb ≡ some t) ⊎ (find_step s i new ≡ some (some t))
place_on stop_empty none i t rest p new other e f h = ground (arith, h, e)
place_on stop_empty (some first) i t rest p new other e f h = ground (arith, h, e)
place_on stop_hit first_tomb i t rest p new other e f h = ground (arith, h, e)
place_on pass_tomb none i t rest p new other e f h = ground (arith, f h)
place_on pass_tomb (some first) i t rest p new other e f h = f h
place_on pass_other first_tomb i t rest p new other e f h = f h
place_on out_of_range first_tomb i t rest p new other e f h = cc

pub found_index : (i e : ℕ) → ◌≡◌ {A = Option (Option ℕ)} (some (some i)) (some (some e)) → i ≡ e
found_index i e h = cc

module _ (cells : List Cell) (id t : ℕ) (v : ℤ) (below : t < length cells) where
  -- The cells after an insertion at `t`.
  unfoldable pub inserted : List Cell
  inserted = replace cells t (occupied id v)

  at_target : (i k : ℕ) → i ≡ t → see k (get_elem? inserted i) ≡ see k (some (occupied id v))
  unfolding inserted
  at_target i k same =
      ap (λ (j : ℕ). see k (get_elem? inserted j)) same
      ∙ ap (see k) (get_elem-replace cells t (occupied id v) below)

  elsewhere : (i k : ℕ) → i ≢ t → see k (get_elem? inserted i) ≡ see k (get_elem? cells i)
  unfolding inserted
  elsewhere i k other =
      ap (see k) (get_elem-replace_other cells t i (occupied id v) (λ e. other (sym e)))

  next-inserted : (i : ℕ) → next inserted i ≡ next cells i
  unfolding inserted
  next-inserted i = rw (length-replace cells t (occupied id v)) refl

  -- A search for another key that hits a cell still hits it after the insertion.
  pub find-kept :
      (fuel k i e : ℕ)
      → k ≢ id
      → see k (get_elem? cells t) ≢ stop_hit
      → find_from fuel cells k i ≡ some (some e)
      → find_from fuel inserted k i ≡ some (some e)
  unfolding find_from
  find-kept zero k i e diff apart h = cc
  find-kept (suc fuel) k i e diff apart h =
      let goes_on : find_from fuel cells k (next cells i) ≡ some (some e)
          → find_from fuel inserted k (next inserted i) ≡ some (some e) =
        λ p.
          ap (find_from fuel inserted k) (next-inserted i)
          ∙ find-kept fuel k (next cells i) e diff apart p in
      elim (Bool-cases (i == t)) [
        | inl same ↦
            let hit : i ≡ t = ground (arith, same) in
            let seen_old : see k (get_elem? cells i) ≢ stop_hit =
              λ p. apart (ap (λ (j : ℕ). see k (get_elem? cells j)) (sym hit) ∙ p) in
            rw (at_target i k hit ∙ see_other id k v diff) (goes_on (step_past _ i e _ seen_old h))
        | inr other ↦
            rw (elsewhere i k (λ p. ground (arith, p, other)))
              (step_on (see k (get_elem? cells i)) i e _ _ goes_on h)
      ]

  -- After an insertion at `t` a search for its key hits `t`.
  pub place-found :
      (fuel i : ℕ) (first_tomb : Option ℕ) (p : Place)
      → place_from fuel cells id first_tomb i ≡ some p
      → index_of p ≡ t
      → (first_tomb ≡ some t) ⊎ (find_from fuel inserted id i ≡ some (some t))
  unfolding place_from find_from
  place-found zero i first_tomb p h e = cc
  place-found (suc fuel) i first_tomb p h e = elim (Bool-cases (i == t)) [
    | inl same ↦
        let hit : i ≡ t = ground (arith, same) in
        inr (rw (at_target i id hit ∙ see_self id v) (ap (λ (j : ℕ). some (some j)) hit))
    | inr other ↦
        let apart : i ≢ t = λ q. ground (arith, q, other) in
        let seen = see id (get_elem? cells i) in
        rw (elsewhere i id apart, next-inserted i)
          (place_on seen first_tomb i t _ p _ apart e
            (λ q. place-found fuel (next cells i) (first_after seen first_tomb i) p q e) h)
  ]

-- The cell that a search ends at holds its key.
pub find-stop_hit :
    (fuel : ℕ) (cells : List Cell) (k i e : ℕ)
    → find_from fuel cells k i ≡ some (some e)
    → see k (get_elem? cells e) ≡ stop_hit
unfolding find_from
find-stop_hit zero cells k i e h = cc
find-stop_hit (suc fuel) cells k i e h = elim (Seen-cases (see k (get_elem? cells i))) [
  | inl s ↦ absurd (ground (arith, s, h))
  | inr (inl s) ↦
      let same : some (some i) ≡ some (some e) =
        ap (λ (x : Seen). find_step x i (find_from fuel cells k (next cells i))) (sym s) ∙ h in
      ap (λ (j : ℕ). see k (get_elem? cells j)) (sym (found_index i e same)) ∙ s
  | inr (inr s) ↦
      find-stop_hit fuel cells k (next cells i) e
        (step_past (see k (get_elem? cells i)) i e _ (λ q. ground (arith, s, q)) h)
]

-- Where a search hits, an insertion of that key updates.
place_hit :
    (s : Seen) (first_tomb : Option ℕ) (i e : ℕ) (found : Option (Option ℕ)) (rest : Option Place)
    → (found ≡ some (some e) → rest ≡ some (updated e))
    → find_step s i found ≡ some (some e)
    → place_step s first_tomb i rest ≡ some (updated e)
place_hit stop_empty first_tomb i e found rest f h = absurd (ground (arith, h))
place_hit stop_hit first_tomb i e found rest f h = ground (arith, h)
place_hit pass_tomb first_tomb i e found rest f h = f h
place_hit pass_other first_tomb i e found rest f h = f h
place_hit out_of_range first_tomb i e found rest f h = cc

pub place-find :
    (fuel : ℕ) (cells : List Cell) (id i e : ℕ) (first_tomb : Option ℕ)
    → find_from fuel cells id i ≡ some (some e)
    → place_from fuel cells id first_tomb i ≡ some (updated e)
unfolding find_from place_from
place-find zero cells id i e first_tomb h = cc
place-find (suc fuel) cells id i e first_tomb h =
    let seen = see id (get_elem? cells i) in
    place_hit seen first_tomb i e _ _
      (place-find fuel cells id (next cells i) e (first_after seen first_tomb i)) h
