-- ===== src/Registry/Header.antt =====
-- core/bits/registry.go, the header: three words of counts and a word for each slot. Every access
-- is to a whole little-endian word, so the header is the list of its words. A `uint32` is a number
-- below 2 ^ 32; an access out of range panics: `none`.
pub mod Codec
pub mod Slots
use Prim.Native.Nat.{bit_and, bit_or}
use go_anansi.Prelude.{
  ℕ, suc, ◌+◌, ◌-◌, ◌%◌, ◌^◌, Bool, true, false, not, Option, none, some, List, [], ◌∷◌, ◌++◌,
  length, get_elem?, leb, ltb, ◌==◌, if◌then◌else◌,
}
use go_anansi.Prelude.Int.{ℤ, pos, negsuc}
use go_anansi.Prelude.Result.{Result, ok, err}
use go_anansi.Prelude.Word.{shl, shr, and_not}
use go_anansi.Handle.{max_offset}
use go_anansi.Registry.Pages.{Pages, ◌>>=?◌, set_elem?, slot_set, nowhere}

abbrev pub Header : Type 0
Header = List ℕ

abbrev pub header_format_version : ℕ
header_format_version = 1

abbrev pub header_prefix_words : ℕ
header_prefix_words = 3

abbrev pub slot_gen_mask : ℕ
slot_gen_mask = 0x7FFFFFFF

abbrev pub slot_alive_bit : ℕ
slot_alive_bit = 2 ^ 63

abbrev pub free_list_nil : ℕ
free_list_nil = 0xFFFFFFFF

-- `uint32(w)`
abbrev pub uint32 : ℕ → ℕ
uint32 w = w % 2 ^ 32

abbrev pub read_word : Header → ℕ → Option ℕ
read_word h word = get_elem? h word

abbrev pub write_word : Header → ℕ → ℕ → Option Header
write_word h word v = set_elem? h word v

unfoldable pub header_prefix_len : Header → Option ℕ
header_prefix_len h = read_word h 0 >>=? λ w. some (bit_and w 0x3 + 1)

unfoldable pub header_live_count : Header → Option ℕ
header_live_count h = read_word h 1 >>=? λ w. some (uint32 w)

unfoldable pub header_free_head : Header → Option ℕ
header_free_head h = read_word h 1 >>=? λ w. some (uint32 (shr w 32))

unfoldable pub header_slot_count : Header → Option ℕ
header_slot_count h = read_word h 2 >>=? λ w. some (uint32 w)

unfoldable pub set_header_live_count : Header → ℕ → Option Header
set_header_live_count h v = read_word h 1 >>=? λ w. write_word h 1 (bit_or (and_not w 0xFFFFFFFF) v)

unfoldable pub set_header_free_head : Header → ℕ → Option Header
set_header_free_head h v =
    read_word h 1 >>=? λ w. write_word h 1 (bit_or (and_not w (shl 0xFFFFFFFF 32)) (shl v 32))

unfoldable pub set_header_slot_count : Header → ℕ → Option Header
set_header_slot_count h v = read_word h 2 >>=? λ w. write_word h 2 (bit_or (and_not w 0xFFFFFFFF) v)

pub record Slot : Type 0 where
  pub offset_or_next : ℕ
  pub generation : ℕ
  pub alive : Bool

unfoldable pub decode_slot : ℕ → Slot
decode_slot w = record {
  offset_or_next = uint32 w;
  generation = uint32 (bit_and (shr w 32) slot_gen_mask);
  alive = not (bit_and w slot_alive_bit == 0);
}

unfoldable pub encode_slot : Slot → ℕ
encode_slot s =
    let w = bit_or (s.offset_or_next) (shl (bit_and (s.generation) slot_gen_mask) 32) in
    if s.alive then bit_or w slot_alive_bit else w

unfoldable pub read_slot : Header → ℕ → ℕ → Option Slot
read_slot h prefix_len index = read_word h (prefix_len + index) >>=? λ w. some (decode_slot w)

unfoldable pub write_slot : Header → ℕ → ℕ → Slot → Option Header
write_slot h prefix_len index s = write_word h (prefix_len + index) (encode_slot s)

unfoldable pub new_header : ℕ → Header
new_header length_bits =
    let code = bit_and (header_prefix_words - 1) 0x3 in
    let versioned = bit_or code (shl (bit_and header_format_version 0xFF) 2) in
    bit_or versioned (shl (bit_and length_bits 0xFF) 10) ∷ shl free_list_nil 32 ∷ 0 ∷ []

-- An `index` is an offset, so it is not negative. The result is none where the slot is not alive.
unfoldable pub slot_offset : Header → ℕ → Option (Option ℕ)
slot_offset header index = header_slot_count header >>=? λ count.
    if leb count index
    then some none
    else (header_prefix_len header >>=? λ prefix_len. read_slot header prefix_len index >>=? λ s.
        some (if s.alive then some (s.offset_or_next) else none))

unfoldable pub set_slot_offset : Header → ℕ → ℕ → Option Header
set_slot_offset header index offset = header_prefix_len header >>=? λ prefix_len.
    read_slot header prefix_len index >>=? λ s.
    write_slot header prefix_len index
      record { offset_or_next = offset; generation = s.generation; alive = true }

unfoldable pub free_slot : Header → ℕ → Option Header
free_slot header index = header_prefix_len header >>=? λ prefix_len.
    read_slot header prefix_len index >>=? λ s. header_free_head header >>=? λ free_head.
    write_slot header prefix_len index record {
      offset_or_next = free_head;
      generation = bit_and (uint32 (s.generation + 1)) slot_gen_mask;
      alive = false;
    }
    >>=? λ written. set_header_free_head written (uint32 index) >>=? λ linked.
        header_live_count linked >>=? λ live.
        set_header_live_count linked (uint32 (live + 2 ^ 32 - 1))

pub record Allocated : Type 0 where
  pub index : ℕ
  pub header : Header
  pub slot_to_entry : Pages ℤ

pub data AllocError : Type 0 where
  too_many_entries : AllocError

-- the slot that the free list begins with
abbrev pub reuse_slot : Header → Pages ℤ → ℕ → Option (Result AllocError Allocated)
reuse_slot header slot_to_entry idx = header_prefix_len header >>=? λ prefix_len.
    read_slot header prefix_len idx >>=? λ s.
    if s.alive
    then none
    else (set_header_free_head header (s.offset_or_next) >>=? λ unlinked.
        header_live_count unlinked >>=? λ live.
        set_header_live_count unlinked (uint32 (live + 1)) >>=? λ counted.
        some (ok record { index = idx; header = counted; slot_to_entry = slot_to_entry }))

-- a slot behind the last one
abbrev pub add_slot : Header → Pages ℤ → Option (Result AllocError Allocated)
add_slot header slot_to_entry = header_slot_count header >>=? λ count.
    if leb max_offset count
    then some (err too_many_entries)
    else (set_header_slot_count (header ++ (0 ∷ [])) (uint32 (count + 1)) >>=? λ longer.
        header_live_count longer >>=? λ live.
        set_header_live_count longer (uint32 (live + 1)) >>=? λ counted.
        slot_set slot_to_entry count nowhere >>=? λ slots.
        some (ok record { index = count; header = counted; slot_to_entry = slots }))

-- A nil slot table is the empty one, which it is replaced by before it is used.
unfoldable pub alloc_slot : Header → Pages ℤ → Option (Result AllocError Allocated)
alloc_slot header slot_to_entry = header_free_head header >>=? λ free_head.
    if free_head == free_list_nil
    then add_slot header slot_to_entry
    else reuse_slot header slot_to_entry free_head
