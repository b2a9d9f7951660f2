-- ===== src/Registry/Snapshot/Tests.antt =====
-- Runs of core/bits/registry.go, Registry, with numbers as keys, and its theorems at two entries.
use go_anansi.Prelude.{ℕ, ◌^◌, ◌<◌, ◌≡◌, ◌≢◌, refl, arith, Option, none, some, List, [], ◌∷◌, ◌++◌}
use go_anansi.Prelude.Int.{pos, negsuc}
use go_anansi.Prelude.Result.{ok}
use go_anansi.Handle.{
  Handle, id, id_shift, bit_space, ones, offset, handle, set_id, max_length, max_id, length,
}
use go_anansi.Registry.Pages.{◌>>=?◌, get, set, append, pop, slot_set, with_pages}
use go_anansi.Registry.Header.{
  Allocated, new_header, set_header_slot_count, set_header_live_count, header_live_count,
  header_free_head, header_slot_count, alloc_slot, decode_slot, encode_slot, free_slot,
  header_prefix_len, read_slot, set_header_free_head, set_slot_offset, slot_offset, write_slot,
}
use go_anansi.Registry.Pages.Flat.{IsPaged, flat}
use go_anansi.Registry.Pages.Laws.{IsValid, elements}
use go_anansi.Registry.Ids.{
  empty_cell, occupied, lookup, find, find_from, see, hash_uint64, cap_for_count, cap_from, delete,
  empty_cells, grow_to, insert_cells, insert_or_update, insert_or_update_in_place, new_id_table,
  place_from, rehashed,
}
use go_anansi.Registry.Snapshot.{
  handle_length, Snapshot, Config, Outcome, ◌>>=!◌, empty_snapshot, append_entry, delete_pos,
}
use go_anansi.Registry.Snapshot.Methods.{
  get_key, set_key, delete_key, steps, first_fit, stored, written, remove_hole, set_fit, id_of,
  update_handle, handle_of, with_entries,
}
use go_anansi.Registry.Snapshot.Transfer.{
  export, import, import_counted, write, load, load_all, slice_from, put_le, get_le,
}
use go_anansi.Registry.Snapshot.Laws.{IsBelow, import-export}
use go_anansi.Registry.Snapshot.Stored.{IsSlot}
use go_anansi.Registry.Snapshot.Setting.{AreLow, get_key-set_fit}
use go_anansi.Registry.Snapshot.Update.{update_handle-handle_of}

abbrev cfg : Config ℕ (List ℕ)
cfg = record {
  spec = 16;
  compaction_threshold = 256;
  hash_key = some (λ (k : ℕ). k);
  new_view = some (λ (h : Handle) (bytes : List ℕ). bytes);
  on_write = none;
}

abbrev put : ℕ → List ℕ → Snapshot → Outcome Snapshot
put key value s = set_key cfg s key value >>=! λ out. some (ok (out.1))

abbrev gone : ℕ → Snapshot → Outcome Snapshot
gone key s = steps (delete_key cfg s key >>=? λ (found : Option Snapshot). found)

abbrev one_left : Outcome Snapshot
one_left = put 7 (1 ∷ 2 ∷ []) (empty_snapshot 16) >>=! λ s. put 8 (3 ∷ 4 ∷ []) s >>=! λ t. gone 7 t

left_reads : (one_left >>=! λ s. get_key cfg s 8) ≡ some (ok (3 ∷ 4 ∷ []))
unfolding get_key set_key delete_key empty_snapshot first_fit stored written export import
    import_counted write load load_all slice_from put_le get_le append_entry delete_pos new_header
    set_header_slot_count set_header_live_count header_live_count header_free_head header_slot_count
    alloc_slot slot_set with_pages handle set_id max_length max_id bit_space id id_shift length ones
    offset decode_slot encode_slot free_slot header_prefix_len read_slot set_header_free_head
    set_slot_offset slot_offset write_slot cap_for_count cap_from delete empty_cells find find_from
    grow_to hash_uint64 insert_cells insert_or_update insert_or_update_in_place new_id_table
    place_from rehashed see append get pop set remove_hole lookup
left_reads = refl

-- The bytes of the hole are exported, and Import reads them as those of the entry behind it.
imported_reads :
    (one_left >>=! λ s.
    steps (export s) >>=! λ bytes. import 16 (empty_snapshot 16) bytes >>=! λ t. get_key cfg t 8)
    ≡ some (ok (1 ∷ 2 ∷ []))
unfolding get_key set_key delete_key empty_snapshot first_fit stored written export import
    import_counted write load load_all slice_from put_le get_le append_entry delete_pos new_header
    set_header_slot_count set_header_live_count header_live_count header_free_head header_slot_count
    alloc_slot slot_set with_pages handle set_id max_length max_id bit_space id id_shift length ones
    offset decode_slot encode_slot free_slot header_prefix_len read_slot set_header_free_head
    set_slot_offset slot_offset write_slot cap_for_count cap_from delete empty_cells find find_from
    grow_to hash_uint64 insert_cells insert_or_update insert_or_update_in_place new_id_table
    place_from rehashed see append get pop set remove_hole lookup
imported_reads = refl

-- what Set gives for the keys 7 and 8, with two bytes each
abbrev two : Snapshot
two = record {
  bytes = 1 ∷ 2 ∷ 3 ∷ 4 ∷ [];
  header = 16390 ∷ 18446744069414584322 ∷ 2 ∷ 9223372036854775808 ∷ 9223372036854775810 ∷ [];
  entries = record { pages = (30064902144 ∷ 34359869441 ∷ []) ∷ []; length = 2 };
  slot_to_entry = record { pages = (pos 0 ∷ pos 1 ∷ []) ∷ []; length = 2 };
  holes = [];
  id_index = some record {
    cells =
        empty_cell
        ∷ empty_cell
        ∷ empty_cell
        ∷ empty_cell
        ∷ empty_cell
        ∷ occupied 7 (pos 0)
        ∷ empty_cell
        ∷ occupied 8 (pos 1)
        ∷ [];
    count = 2;
    tomb = 0;
  };
  tombstones = 0;
  compactions = 0;
  defragments = 0;
}

two-IsValid : IsValid (two.entries)
unfolding IsValid IsPaged
two-IsValid = (refl, omega arith)

two-IsBelow : IsBelow (2 ^ 64) (elements (two.entries))
unfolding IsBelow elements flat
two-IsBelow = (omega arith, (omega arith, tt))

import-export_example :
    (out : List ℕ) × (export two ≡ some out)
    × ((rest : List ℕ)
        → import 16 (empty_snapshot 16) (out ++ rest)
          ≡ write 16 (empty_snapshot 16) (elements (two.entries)) (two.bytes))
import-export_example =
    import-export 16 (empty_snapshot 16) two two-IsValid two-IsBelow (omega arith) (omega arith)

-- the handle of key 8, with length 1 in place of 2
abbrev shorter : Handle
shorter = 34359803905

shorter_found : lookup (two.id_index) (id 16 shorter) ≡ some (some (pos 1))
unfolding lookup find find_from see hash_uint64 id id_shift bit_space ones
shorter_found = refl

second_entry : get (two.entries) 1 ≡ some 34359869441
unfolding get
second_entry = refl

same_offset : offset shorter ≡ offset 34359869441
unfolding offset
same_offset = refl

update_handle-handle_of_example :
    (new : Snapshot) × (update_handle 16 two shorter ≡ some (some (34359869441, new)))
    × (handle_of new (id 16 shorter) ≡ some (some shorter))
    × ((q : ℕ) → q < 2 → q ≢ 1 → get (new.entries) q ≡ get (two.entries) q)
    × (new ≡ with_entries two (new.entries))
update_handle-handle_of_example =
    update_handle-handle_of 16 two shorter 1 two-IsValid 34359869441 shorter_found (omega arith)
      second_entry same_offset

-- the slot that is allocated next
abbrev third : Allocated
third = record {
  index = 2;
  header = 16390 ∷ 18446744069414584323 ∷ 3 ∷ 9223372036854775808 ∷ 9223372036854775810 ∷ 0 ∷ [];
  slot_to_entry = record { pages = (pos 0 ∷ pos 1 ∷ negsuc 0 ∷ []) ∷ []; length = 3 };
}

abbrev as_bytes : Handle → List ℕ → List ℕ
as_bytes h bytes = bytes

abbrev with_nine : Snapshot
with_nine = record {
  bytes = 1 ∷ 2 ∷ 3 ∷ 4 ∷ 5 ∷ [];
  header =
      16390 ∷ 18446744069414584323 ∷ 3 ∷ 9223372036854775808 ∷ 9223372036854775810
      ∷ 9223372036854775812 ∷ [];
  entries = record { pages = (30064902144 ∷ 34359869441 ∷ 38654771202 ∷ []) ∷ []; length = 3 };
  slot_to_entry = record { pages = (pos 0 ∷ pos 1 ∷ pos 2 ∷ []) ∷ []; length = 3 };
  holes = [];
  id_index = some record {
    cells =
        empty_cell
        ∷ empty_cell
        ∷ empty_cell
        ∷ empty_cell
        ∷ empty_cell
        ∷ occupied 7 (pos 0)
        ∷ occupied 9 (pos 2)
        ∷ occupied 8 (pos 1)
        ∷ [];
    count = 3;
    tomb = 0;
  };
  tombstones = 0;
  compactions = 0;
  defragments = 0;
}

nine_set :
    set_fit cfg
      (λ (h : Handle) (bytes : List ℕ). bytes)
      two
      third
      (id_of cfg (λ (k : ℕ). k) 9)
      (5 ∷ [])
      (first_fit 1 (two.holes))
    ≡ some (ok (5 ∷ [], with_nine))
unfolding first_fit stored written append_entry set_slot_offset header_prefix_len read_slot
    write_slot decode_slot encode_slot append slot_set with_pages insert_or_update
    insert_or_update_in_place place_from see hash_uint64 handle set_id max_length max_id bit_space
    id id_shift length ones
nine_set = refl

third-IsSlot : IsSlot (third.header) 2
third-IsSlot = record {
  w0 = 16390;
  w1 = 18446744069414584323;
  w2 = 3;
  slots = 9223372036854775808 ∷ 9223372036854775810 ∷ 0 ∷ [];
  w = 0;
  words = refl;
  prefixed = record { three_words = omega arith; is_word = omega arith };
  there = refl;
  counted = omega arith;
}

no_holes-AreLow : AreLow []
unfolding AreLow
no_holes-AreLow = tt

nine_fits : id_of cfg (λ (k : ℕ). k) 9 < 2 ^ 32
unfolding max_id bit_space ones
nine_fits = omega arith

get_key-set_fit_example :
    (h : Handle) × (offset h ≡ 2)
    × (handle_length 16 h ≡ 1)
    × (id 16 h ≡ id_of cfg (λ (k : ℕ). k) 9)
    × (◌≡◌ {A = List ℕ} (5 ∷ []) (5 ∷ []))
    × (get_key cfg with_nine 9 ≡ some (ok (5 ∷ [])))
get_key-set_fit_example =
    get_key-set_fit cfg (λ (k : ℕ). k) (λ (h : Handle) (bytes : List ℕ). bytes) 9 two with_nine
      third (5 ∷ []) (5 ∷ []) refl refl refl
      record { at_least_one = omega arith; at_most = omega arith } two-IsValid (omega arith)
      third-IsSlot (omega arith) (omega arith) nine_fits (omega arith) no_holes-AreLow nine_set
