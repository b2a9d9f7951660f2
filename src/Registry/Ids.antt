-- ===== src/Registry/Ids.antt =====
-- core/bits/registry.go, idTable: the open-addressed hash table from the ID of an entry to its
-- position. The parallel slices of keys, values and states are one list of cells; what a cell that
-- is not occupied holds as key and value is never read.
pub mod Probe
mod Open
mod Buried
pub mod Laws
pub mod Total
pub mod Delete
pub mod Tests
use Prim.Native.Nat.{bit_and, bit_xor}
use go_anansi.Prelude.{
  ℕ, zero, suc, ◌+◌, ◌-◌, ◌*◌, ◌/◌, ◌%◌, ◌^◌, Bool, true, false, Option, none, some, List, [], ◌∷◌,
  length, get_elem?, leb, ltb, ◌==◌, if◌then◌else◌,
}
use go_anansi.Prelude.Int.{ℤ}
use go_anansi.Prelude.Word.{shr}
use go_anansi.Registry.Pages.{◌>>=?◌, set_elem?}

pub data Cell : Type 0 where
  empty_cell tombstone : Cell
  occupied : ℕ → ℤ → Cell

pub record IdTable : Type 0 where
  pub cells : List Cell
  pub count : ℕ
  pub tomb : ℕ

abbrev pub min_id_table_cap : ℕ
min_id_table_cap = 8

-- a uint64 product
abbrev mul64 : ℕ → ℕ → ℕ
mul64 a b = (a * b) % 2 ^ 64

unfoldable pub hash_uint64 : ℕ → ℕ
hash_uint64 x =
    let a = bit_xor x (shr x 33) in
    let b = mul64 a 0xff51afd7ed558ccd in
    let c = bit_xor b (shr b 33) in let d = mul64 c 0xc4ceb9fe1a85ec53 in bit_xor d (shr d 33)

-- `uint64(len(t.state) - 1)`
abbrev pub mask_of : List Cell → ℕ
mask_of cells = (length cells + 2 ^ 64 - 1) % 2 ^ 64

abbrev pub start : List Cell → ℕ → ℕ
start cells id = bit_and (hash_uint64 id) (mask_of cells)

abbrev pub next : List Cell → ℕ → ℕ
next cells i = bit_and ((i + 1) % 2 ^ 64) (mask_of cells)

-- what a cell means to a search for `id`
pub data Seen : Type 0 where
  stop_empty stop_hit pass_tomb pass_other out_of_range : Seen

unfoldable pub see : ℕ → Option Cell → Seen
see id none = out_of_range
see id (some empty_cell) = stop_empty
see id (some tombstone) = pass_tomb
see id (some (occupied k v)) = if k == id then stop_hit else pass_other

-- The outcome of a search: not there, or there at an index.
abbrev pub Found : Type 0
Found = Option ℕ

abbrev pub find_step : Seen → ℕ → Option Found → Option Found
find_step stop_empty i rest = some none
find_step stop_hit i rest = some (some i)
find_step pass_tomb i rest = rest
find_step pass_other i rest = rest
find_step out_of_range i rest = none

-- the loop of `find` from index `i`; it has gone round after as many steps as there are cells, and
-- then runs for ever: `none`
unfoldable pub find_from : ℕ → List Cell → ℕ → ℕ → Option Found
find_from zero cells id i = none
find_from (suc fuel) cells id i =
    let rest = find_from fuel cells id (next cells i) in
    find_step (see id (get_elem? cells i)) i rest

unfoldable pub find : IdTable → ℕ → Option Found
find t id = find_from (length (t.cells)) (t.cells) id (start (t.cells) id)

abbrev pub value_of : Cell → Option ℤ
value_of (occupied k v) = some v
value_of empty_cell = none
value_of tombstone = none

-- A nil table is `none`.
unfoldable pub lookup : Option IdTable → ℕ → Option (Option ℤ)
lookup none id = some none
lookup (some t) id = find t id >>=? λ found. elim found [
  | none ↦ some none
  | some i ↦ get_elem? (t.cells) i >>=? λ c. some (value_of c)
]

-- where an insertion goes: a cell that is free, with a tombstone or not, or one that is updated
pub data Place : Type 0 where
  fresh reused updated : ℕ → Place

abbrev pub target_of : Option ℕ → ℕ → Place
target_of none i = fresh i
target_of (some first_tomb) i = reused first_tomb

abbrev pub first_after : Seen → Option ℕ → ℕ → Option ℕ
first_after pass_tomb none i = some i
first_after pass_tomb (some first_tomb) i = some first_tomb
first_after stop_empty first_tomb i = first_tomb
first_after stop_hit first_tomb i = first_tomb
first_after pass_other first_tomb i = first_tomb
first_after out_of_range first_tomb i = first_tomb

abbrev pub place_step : Seen → Option ℕ → ℕ → Option Place → Option Place
place_step stop_empty first_tomb i rest = some (target_of first_tomb i)
place_step stop_hit first_tomb i rest = some (updated i)
place_step pass_tomb first_tomb i rest = rest
place_step pass_other first_tomb i rest = rest
place_step out_of_range first_tomb i rest = none

-- the loop of `insertOrUpdateInPlace`
unfoldable pub place_from : ℕ → List Cell → ℕ → Option ℕ → ℕ → Option Place
place_from zero cells id first_tomb i = none
place_from (suc fuel) cells id first_tomb i =
    let seen = see id (get_elem? cells i) in
    let rest = place_from fuel cells id (first_after seen first_tomb i) (next cells i) in
    place_step seen first_tomb i rest

abbrev pub put : IdTable → ℕ → Cell → ℕ → ℕ → Option IdTable
put t i c count tomb =
    set_elem? (t.cells) i c >>=? λ cells. some record { cells = cells; count = count; tomb = tomb }

abbrev pub insert_at : IdTable → Cell → Place → Option IdTable
insert_at t c (fresh i) = put t i c (t.count + 1) (t.tomb)
insert_at t c (reused i) = put t i c (t.count + 1) (t.tomb - 1)
insert_at t c (updated i) = put t i c (t.count) (t.tomb)

unfoldable pub insert_or_update_in_place : IdTable → ℕ → ℤ → Option IdTable
insert_or_update_in_place t id val =
    place_from (length (t.cells)) (t.cells) id none (start (t.cells) id)
    >>=? insert_at t (occupied id val)

-- the loop that doubles `c` while `c < hint`
unfoldable pub grow_to : ℕ → ℕ → ℕ → ℕ
grow_to zero hint c = c
grow_to (suc fuel) hint c =
    let larger = grow_to fuel hint (c * 2) in if ltb c hint then larger else c

unfoldable pub empty_cells : ℕ → List Cell
empty_cells zero = []
empty_cells (suc n) = empty_cell ∷ empty_cells n

unfoldable pub new_id_table : ℕ → IdTable
new_id_table capacity_hint = record {
  cells = empty_cells (grow_to capacity_hint capacity_hint min_id_table_cap);
  count = 0;
  tomb = 0;
}

-- the loop that doubles `c` while `c * 6 / 10 < n`
unfoldable pub cap_from : ℕ → ℕ → ℕ → ℕ
cap_from zero n c = c
cap_from (suc fuel) n c =
    let larger = cap_from fuel n (c * 2) in if ltb (c * 6 / 10) n then larger else c

unfoldable pub cap_for_count : ℕ → ℕ
cap_for_count n = cap_from n n min_id_table_cap

abbrev insert_cell : Cell → IdTable → Option IdTable
insert_cell (occupied k v) nt = insert_or_update_in_place nt k v
insert_cell empty_cell nt = some nt
insert_cell tombstone nt = some nt

unfoldable pub insert_cells : List Cell → IdTable → Option IdTable
insert_cells [] nt = some nt
insert_cells (c ∷ rest) nt = insert_cell c nt >>=? insert_cells rest

unfoldable pub rehashed : IdTable → ℕ → Option IdTable
rehashed t new_cap = insert_cells (t.cells) (new_id_table new_cap)

unfoldable pub insert_or_update : Option IdTable → ℕ → ℤ → Option IdTable
insert_or_update none id val = insert_or_update_in_place (new_id_table min_id_table_cap) id val
insert_or_update (some t) id val =
    if leb (length (t.cells) * 7) ((t.count + t.tomb + 1) * 10)
    then (rehashed t (cap_for_count (t.count + 1)) >>=? λ nt. insert_or_update_in_place nt id val)
    else insert_or_update_in_place t id val

-- The table after `delete`, and whether it was compacted. The count of a table that holds `id` is
-- not 0.
abbrev pub delete_at : IdTable → ℕ → ℕ → Option (Option IdTable × Bool)
delete_at t threshold idx = put t idx tombstone (t.count - 1) (t.tomb + 1) >>=? λ nt.
    if leb threshold (nt.tomb)
    then (rehashed nt (length (nt.cells)) >>=? λ compact. some (some compact, true))
    else (some (some nt, false))

unfoldable pub delete : Option IdTable → ℕ → ℕ → Option (Option IdTable × Bool)
delete none id threshold = some (none, false)
delete (some t) id threshold = find t id >>=? λ found. elim found [
  | none ↦ some (some t, false)
  | some idx ↦ delete_at t threshold idx
]
