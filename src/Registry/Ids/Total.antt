-- ===== src/Registry/Ids/Total.antt =====
-- The searches of the hash table of core/bits/registry.go end where the table has an empty cell and
-- its size is a power of two.
use native.Mathlib.Nat.{mod-eq_of_lt, one-le-pow, mod_self, mod-lt}
use go_anansi.Prelude.{
  ℕ, zero, suc, ◌+◌, ◌-◌, ◌%◌, ◌^◌, ◌≤◌, ◌<◌, ◌≡◌, ◌≢◌, ◌⊎◌, inl, inr, refl, ap, ◌∙◌, arith, Option,
  none, some, List, [], ◌∷◌, length, get_elem?, ltb, ltb→lt, Bool-cases,
}
use go_anansi.Prelude.Int.{ℤ}
use go_anansi.Prelude.Word.{bit_and-ones, pow-le_two}
use go_anansi.Registry.Pages.Flat.{set_elem_lem, replace}
use go_anansi.Registry.Ids.{
  Cell, empty_cell, occupied, IdTable, Found, find, find_from, find_step, start, next, mask_of, see,
  Seen, stop_empty, stop_hit, pass_tomb, pass_other, out_of_range, place_from, place_step,
  first_after, Place, tombstone, hash_uint64, fresh, reused, updated, put, insert_at,
  insert_or_update_in_place,
}
use go_anansi.Registry.Ids.Probe.{index_of}
use go_anansi.Registry.Ids.Open.{place-IsOpen, Opens}
use go_anansi.Registry.Ids.Laws.{get_elem_range}

step_total :
    (s : Seen) (first_tomb : Option ℕ) (i : ℕ) (rest : Option Place)
    → s ≢ out_of_range
    → ((p : Place) × (rest ≡ some p))
    → (p : Place) × (place_step s first_tomb i rest ≡ some p)
step_total stop_empty first_tomb i rest h r = (_, refl)
step_total stop_hit first_tomb i rest h r = (_, refl)
step_total pass_tomb first_tomb i rest h r = r
step_total pass_other first_tomb i rest h r = r
step_total out_of_range first_tomb i rest h r = absurd (h refl)

-- Where an insertion's search ends, a lookup's does.
found_step :
    (s : Seen) (first_tomb : Option ℕ) (i : ℕ) (rest : Option Place) (found : Option Found)
    (p : Place)
    → ((q : Place) → rest ≡ some q → (r : Found) × (found ≡ some r))
    → place_step s first_tomb i rest ≡ some p
    → (r : Found) × (find_step s i found ≡ some r)
found_step stop_empty first_tomb i rest found p f h = (_, refl)
found_step stop_hit first_tomb i rest found p f h = (_, refl)
found_step pass_tomb first_tomb i rest found p f h = f p h
found_step pass_other first_tomb i rest found p f h = f p h
found_step out_of_range first_tomb i rest found p f h = cc

found_total :
    (fuel : ℕ) (cells : List Cell) (id i : ℕ) (first_tomb : Option ℕ) (p : Place)
    → place_from fuel cells id first_tomb i ≡ some p
    → (r : Found) × (find_from fuel cells id i ≡ some r)
unfolding place_from find_from
found_total zero cells id i first_tomb p h = cc
found_total (suc fuel) cells id i first_tomb p h =
    let seen = see id (get_elem? cells i) in
    found_step seen first_tomb i _ _ p
      (λ q e. found_total fuel cells id (next cells i) (first_after seen first_tomb i) q e) h

seen_in_range :
    (cells : List Cell) (i id : ℕ) → i < length cells → see id (get_elem? cells i) ≢ out_of_range
unfolding see
seen_in_range [] i id h e = absurd (omega arith)
seen_in_range (empty_cell ∷ cells) zero id h e = ground (arith, e)
seen_in_range (tombstone ∷ cells) zero id h e = ground (arith, e)
seen_in_range (occupied j w ∷ cells) zero id h e = ground (arith, e)
seen_in_range (c ∷ cells) (suc i) id h e = seen_in_range cells i id (omega arith) e

module _ (cells : List Cell) (k : ℕ) (size : length cells ≡ 2 ^ k) (small : k ≤ 63) where
  mask_lem : mask_of cells ≡ 2 ^ k - 1
  mask_lem = omega (arith, size, pow-le_two k 63 small, one-le-pow k 2)

  next_lem : (i : ℕ) → i < 2 ^ k → next cells i ≡ (i + 1) % 2 ^ k
  next_lem i h =
      let word : (i + 1) % 2 ^ 64 ≡ i + 1 = omega (arith, pow-le_two k 63 small) in
      rw (word, mask_lem, bit_and-ones k (i + 1)) refl

  start_below : (id : ℕ) → start cells id < 2 ^ k
  start_below id =
      rw (mask_lem, bit_and-ones k (hash_uint64 id))
        (mod-lt (hash_uint64 id) (one-le-pow k 2 (omega arith)))

  next_cases :
      (i : ℕ)
      → i < 2 ^ k
      → ((i + 1 < 2 ^ k) × (next cells i ≡ i + 1)) ⊎ ((i + 1 ≡ 2 ^ k) × (next cells i ≡ 0))
  next_cases i h = elim (Bool-cases (ltb (i + 1) (2 ^ k))) [
    | inl e ↦
        let below : i + 1 < 2 ^ k = ltb→lt _ _ e in inl (below, next_lem i h ∙ mod-eq_of_lt below)
    | inr e ↦
        let last : i + 1 ≡ 2 ^ k = ground (arith, e) in
        inr (last, next_lem i h ∙ ap (λ (t : ℕ). t % 2 ^ k) last ∙ mod_self (2 ^ k))
  ]

  closer_lem :
      (d i e : ℕ)
      → i < 2 ^ k
      → e < 2 ^ k
      → (e ≡ i + suc d) ⊎ (e + 2 ^ k ≡ i + suc d)
      → ((e ≡ next cells i + d) ⊎ (e + 2 ^ k ≡ next cells i + d)) × (next cells i < 2 ^ k)
  closer_lem d i e hi he p = ground (arith, next_cases i hi, p)

  -- The loop of an insertion ends when an empty cell lies `d` cells on.
  place_total :
      (d fuel id i e : ℕ) (first_tomb : Option ℕ)
      → i < 2 ^ k
      → e < 2 ^ k
      → (e ≡ i + d) ⊎ (e + 2 ^ k ≡ i + d)
      → get_elem? cells e ≡ some empty_cell
      → d < fuel
      → (p : Place) × (place_from fuel cells id first_tomb i ≡ some p)
  unfolding place_from see
  place_total d zero id i e first_tomb hi he p empty more = absurd (omega arith)
  place_total zero (suc fuel) id i e first_tomb hi he (inr p) empty more = absurd (omega arith)
  place_total zero (suc fuel) id i e first_tomb hi he (inl p) empty more =
      let at_empty : see id (get_elem? cells i) ≡ stop_empty =
        ap (λ (j : ℕ). see id (get_elem? cells j)) {y = e} (omega arith) ∙ ap (see id) empty in
      rw at_empty (_, refl)
  place_total (suc d) (suc fuel) id i e first_tomb hi he p empty more =
      let seen = see id (get_elem? cells i) in
      let (closer, below) = closer_lem d i e hi he p in
      step_total seen first_tomb i _ (seen_in_range cells i id (omega (arith, size))) (
        place_total d fuel id (next cells i) e (first_after seen first_tomb i) below he closer empty
          (omega arith))

  place_start :
      (id e : ℕ)
      → get_elem? cells e ≡ some empty_cell
      → (p : Place) × (place_from (length cells) cells id none (start cells id) ≡ some p)
  place_start id e empty =
      let s = start cells id in
      let hs = start_below id in
      let he : e < 2 ^ k = omega (arith, size, get_elem_range cells e empty_cell empty) in
      elim (Bool-cases (ltb e s)) [
        | inl before ↦
            let less : e < s = ltb→lt e s before in
            place_total (e + 2 ^ k - s) (length cells) id s e none hs he (inr (omega arith)) empty
              (omega (arith, size))
        | inr after ↦
            let most : s ≤ e = ground (arith, after) in
            place_total (e - s) (length cells) id s e none hs he (inl (omega arith)) empty
              (omega (arith, size))
      ]

put_total :
    (t : IdTable) (i : ℕ) (c : Cell) (count tomb : ℕ)
    → i < length t.cells
    → (new : IdTable) × (put t i c count tomb ≡ some new)
put_total t i c count tomb h = (
  record { cells = replace t.cells i c; count = count; tomb = tomb },
  rw (set_elem_lem t.cells i c h) refl,
)

insert_at_total :
    (t : IdTable) (c : Cell) (p : Place)
    → index_of p < length t.cells
    → (new : IdTable) × (insert_at t c p ≡ some new)
insert_at_total t c (fresh i) h = put_total t i c _ _ h
insert_at_total t c (reused i) h = put_total t i c _ _ h
insert_at_total t c (updated i) h = put_total t i c _ _ h

-- In a table whose size is a power of two up to 2^63 and that has an empty cell,
-- insertOrUpdateInPlace ends with a table, and find ends.
pub searches_end :
    (t : IdTable) (k e id : ℕ) (v : ℤ)
    → length t.cells ≡ 2 ^ k
    → k ≤ 63
    → get_elem? t.cells e ≡ some empty_cell
    → (new : IdTable) × (r : Found) × (insert_or_update_in_place t id v ≡ some new)
      × (find t id ≡ some r)
unfolding insert_or_update_in_place find Opens
searches_end t k e id v size small empty =
    let (p, placed) = place_start t.cells k size small id e empty in
    let (r, found) = found_total (length t.cells) t.cells id (start t.cells id) none p placed in
    let (c, there, open_cell) =
      place-IsOpen t.cells id (length t.cells) (start t.cells id) none p (λ j q. absurd cc)
        placed in
    let (new, made) =
      insert_at_total t (occupied id v) p (get_elem_range t.cells (index_of p) c there) in
    (new, r, rw placed made, found)
