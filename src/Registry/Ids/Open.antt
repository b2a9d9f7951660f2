-- ===== src/Registry/Ids/Open.antt =====
-- Where an insertion in the hash table of core/bits/registry.go goes: to a cell that is free, or
-- that holds its key.
use go_anansi.Prelude.{
  ℕ, zero, suc, ◌≡◌, ◌≢◌, ◌⊎◌, inl, inr, refl, sym, ap, ◌∙◌, arith, Option, none, some, List,
  get_elem?, ◌==◌, Bool-cases,
}
use mathlib.Core.Path.{subst}
use go_anansi.Prelude.Int.{ℤ}
use go_anansi.Registry.Ids.{
  Cell, empty_cell, tombstone, occupied, Seen, stop_hit, pass_other, see, next, place_from,
  place_step, first_after, Place, fresh, reused, updated,
}
use go_anansi.Registry.Ids.Probe.{index_of}

-- The cell `c` is free for the key `id`, or holds it already.
unfoldable pub IsOpen : ℕ → Cell → Type 0
IsOpen id c = (c ≡ empty_cell) ⊎ ((c ≡ tombstone) ⊎ ((w : ℤ) × (c ≡ occupied id w)))

pub see-IsOpen : (id k : ℕ) (c : Cell) → IsOpen id c → k ≢ id → see k (some c) ≢ stop_hit
unfolding IsOpen see
see-IsOpen id k c (inl e) diff h = ground (arith, e, h)
see-IsOpen id k c (inr (inl e)) diff h = ground (arith, e, h)
see-IsOpen id k c (inr (inr (w, e))) diff h = ground (arith, e, h)

pub place_index : (q p : Place) → ◌≡◌ {A = Option Place} (some q) (some p) → index_of q ≡ index_of p
place_index q p h = cc

some_index : (i j : ℕ) → ◌≡◌ {A = Option ℕ} (some i) (some j) → i ≡ j
some_index i j h = cc

module _ (cells : List Cell) (id : ℕ) where
  unfoldable pub Opens : ℕ → Type 0
  Opens j = (c : Cell) × (get_elem? cells j ≡ some c) × IsOpen id c

  open_on :
      (o : Option Cell) (first_tomb : Option ℕ) (i : ℕ) (rest : Option Place) (p : Place)
      → get_elem? cells i ≡ o
      → ((j : ℕ) → first_tomb ≡ some j → Opens j)
      → (((j : ℕ) → first_after (see id o) first_tomb i ≡ some j → Opens j)
          → rest ≡ some p
          → Opens (index_of p))
      → place_step (see id o) first_tomb i rest ≡ some p
      → Opens (index_of p)
  unfolding Opens see IsOpen
  open_on none first_tomb i rest p at tombs f h = cc
  open_on (some empty_cell) none i rest p at tombs f h =
      subst Opens (place_index (fresh i) p h) (empty_cell, at, inl refl)
  open_on (some empty_cell) (some first) i rest p at tombs f h =
      subst Opens (place_index (reused first) p h) (tombs first refl)
  open_on (some tombstone) none i rest p at tombs f h =
      f (λ j q. subst Opens (some_index i j q) (tombstone, at, inr (inl refl))) h
  open_on (some tombstone) (some first) i rest p at tombs f h = f tombs h
  open_on (some (occupied k w)) first_tomb i rest p at tombs f h = elim (Bool-cases (k == id)) [
    | inl same ↦
        let hit : see id (some (occupied k w)) ≡ stop_hit = rw same refl in
        let found = ap (λ (s : Seen). place_step s first_tomb i rest) (sym hit) ∙ h in
        let key : k ≡ id = ground (arith, same) in
        subst Opens (place_index (updated i) p found)
          (occupied k w, at, inr (inr (w, ap (λ (j : ℕ). occupied j w) key)))
    | inr other ↦
        let past : see id (some (occupied k w)) ≡ pass_other = rw other refl in
        f (λ j q. tombs j (ap (λ (s : Seen). first_after s first_tomb i) (sym past) ∙ q))
          (ap (λ (s : Seen). place_step s first_tomb i rest) (sym past) ∙ h)
  ]

  -- An insertion goes to a cell that is open for its key.
  pub place-IsOpen :
      (fuel i : ℕ) (first_tomb : Option ℕ) (p : Place)
      → ((j : ℕ) → first_tomb ≡ some j → Opens j)
      → place_from fuel cells id first_tomb i ≡ some p
      → Opens (index_of p)
  unfolding place_from
  place-IsOpen zero i first_tomb p tombs h = cc
  place-IsOpen (suc fuel) i first_tomb p tombs h =
      open_on (get_elem? cells i) first_tomb i _ p refl tombs
        (place-IsOpen fuel (next cells i) (first_after (see id (get_elem? cells i)) first_tomb i) p)
        h
