-- ===== src/Registry/Ids/Tests.antt =====
-- Runs of the hash table of core/bits/registry.go, and its theorems at concrete tables.
use go_anansi.Prelude.{ℕ, zero, suc, ◌≡◌, ◌≢◌, refl, arith, false, some, [], ◌∷◌, get_elem?}
use go_anansi.Prelude.Int.{ℤ, pos}
use go_anansi.Registry.Ids.{
  empty_cell, tombstone, occupied, IdTable, Found, find, find_from, lookup, see, place_from,
  insert_or_update_in_place, delete, new_id_table, empty_cells, grow_to, hash_uint64,
}
use go_anansi.Registry.Ids.Laws.{
  IsReachable, lookup-insert, lookup-insert_other, insert-IsReachable,
}
use go_anansi.Registry.Ids.Total.{searches_end}
use go_anansi.Registry.Ids.Delete.{lookup-delete, lookup-delete_other}

abbrev none_yet : IdTable
none_yet = record {
  cells =
      empty_cell ∷ empty_cell ∷ empty_cell ∷ empty_cell ∷ empty_cell ∷ empty_cell ∷ empty_cell
      ∷ empty_cell ∷ [];
  count = 0;
  tomb = 0;
}

new_table : new_id_table 8 ≡ none_yet
unfolding new_id_table empty_cells grow_to
new_table = refl

hashed : hash_uint64 5 ≡ 15450398106449630581
unfolding hash_uint64
hashed = refl

-- 5 at its place, the sixth cell
abbrev with_five : IdTable
with_five = record {
  cells =
      empty_cell
      ∷ empty_cell
      ∷ empty_cell
      ∷ empty_cell
      ∷ empty_cell
      ∷ occupied 5 (pos 7)
      ∷ empty_cell
      ∷ empty_cell
      ∷ [];
  count = 1;
  tomb = 0;
}

-- and 9 with it
abbrev with_nine : IdTable
with_nine = record {
  cells =
      empty_cell
      ∷ empty_cell
      ∷ empty_cell
      ∷ empty_cell
      ∷ empty_cell
      ∷ occupied 5 (pos 7)
      ∷ occupied 9 (pos 8)
      ∷ empty_cell
      ∷ [];
  count = 2;
  tomb = 0;
}

five : insert_or_update_in_place none_yet 5 (pos 7) ≡ some with_five
unfolding insert_or_update_in_place place_from see hash_uint64
five = refl

nine : insert_or_update_in_place with_five 9 (pos 8) ≡ some with_nine
unfolding insert_or_update_in_place place_from see hash_uint64
nine = refl

-- 9 without 5 before it
abbrev without_five : IdTable
without_five = record {
  cells =
      empty_cell
      ∷ empty_cell
      ∷ empty_cell
      ∷ empty_cell
      ∷ empty_cell
      ∷ tombstone
      ∷ occupied 9 (pos 8)
      ∷ empty_cell
      ∷ [];
  count = 1;
  tomb = 1;
}

deleted : delete (some with_nine) 5 256 ≡ some (some without_five, false)
unfolding delete find find_from see hash_uint64
deleted = refl

found_nine : lookup (some with_nine) 9 ≡ some (some (pos 8))
unfolding lookup find find_from see hash_uint64
found_nine = refl

found_five : lookup (some with_five) 5 ≡ some (some (pos 7))
unfolding lookup find find_from see hash_uint64
found_five = refl

never_occupied : (n e k : ℕ) (w : ℤ) → get_elem? (empty_cells n) e ≢ some (occupied k w)
unfolding empty_cells
never_occupied zero e k w h = cc
never_occupied (suc n) zero k w h = ground (arith, h)
never_occupied (suc n) (suc e) k w h = never_occupied n e k w h

IsReachable-none_yet : IsReachable none_yet
unfolding IsReachable empty_cells
IsReachable-none_yet e k w h = absurd (never_occupied 8 e k w h)

lookup-insert_example : lookup (some with_nine) 9 ≡ some (some (pos 8))
lookup-insert_example = lookup-insert with_five with_nine 9 (pos 8) nine

lookup-insert_other_example : lookup (some with_nine) 5 ≡ some (some (pos 7))
lookup-insert_other_example =
    lookup-insert_other with_five with_nine 9 (pos 8) nine 5 (pos 7) (ground arith) found_five

insert-IsReachable_example : IsReachable with_five
insert-IsReachable_example =
    insert-IsReachable none_yet with_five 5 (pos 7) five IsReachable-none_yet

searches_end_example :
    (new : IdTable) × (r : Found) × (insert_or_update_in_place with_five 9 (pos 8) ≡ some new)
    × (find with_five 9 ≡ some r)
searches_end_example = searches_end with_five 3 0 9 (pos 8) refl (omega arith) refl

lookup-delete_other_example : lookup (some without_five) 9 ≡ some (some (pos 8))
lookup-delete_other_example =
    lookup-delete_other with_nine without_five 5 256 deleted 9 (pos 8) (ground arith) found_nine

lookup-delete_example : lookup (some without_five) 5 ≢ some (some (pos 7))
lookup-delete_example = lookup-delete with_nine without_five 5 256 deleted (pos 7) (
    insert-IsReachable with_five with_nine 9 (pos 8) nine
      (insert-IsReachable none_yet with_five 5 (pos 7) five IsReachable-none_yet))
