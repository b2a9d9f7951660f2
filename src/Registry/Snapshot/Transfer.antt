-- ===== src/Registry/Snapshot/Transfer.antt =====
-- core/bits/registry.go, Write, Export and Import: all entries and bytes at once. Go's `int` has
-- 64 bits, and a slice is shorter than that.
use go_anansi.Prelude.{
  ℕ, zero, suc, ◌+◌, ◌*◌, ◌/◌, ◌%◌, ◌^◌, Bool, true, false, ◌&&◌, Option, none, some, List, [], ◌∷◌,
  ◌++◌, length, take, drop, ltb, leb, ◌==◌, if◌then◌else◌,
}
use go_anansi.Prelude.Result.{ok, err}
use go_anansi.Handle.{HandleSpec, Handle, max_offset, configured_length_bits}
use go_anansi.Handle
use go_anansi.Registry.Pages.{Pages, ◌>>=?◌, get}
use go_anansi.Registry.Header.{
  Header, uint32, new_header, set_header_slot_count, set_header_live_count, header_prefix_len,
  write_slot,
}
use go_anansi.Registry.Snapshot.{
  Snapshot, too_many_entries, data_exceeds_capacity, data_too_short, invalid_magic_header,
  data_truncated, Outcome, max_data_offset, uint64_of, handle_length, Indexed, append_entry,
}

-- the entries as a slice, read one by one: `n` of them from position `i`
unfoldable pub slice_from : Pages Handle → ℕ → ℕ → Option (List Handle)
slice_from pe zero i = some []
slice_from pe (suc n) i = get pe i >>=? λ h. slice_from pe n (i + 1) >>=? λ rest. some (h ∷ rest)

abbrev pub to_slice : Pages Handle → Option (List Handle)
to_slice pe = slice_from pe (pe.length) 0

-- the first loop of Write: the greatest slot and the sum of the lengths
abbrev pub max_index : List Handle → ℕ → ℕ
max_index [] m = m
max_index (h ∷ hs) m = max_index hs (if ltb m (Handle.offset h) then Handle.offset h else m)

abbrev pub total_length : HandleSpec → List Handle → ℕ → ℕ
total_length spec [] total = total
total_length spec (h ∷ hs) total =
    total_length spec hs ((total + uint64_of (Handle.length spec h)) % 2 ^ 64)

abbrev pub zeros : ℕ → Header
zeros zero = []
zeros (suc n) = 0 ∷ zeros n

pub record Loaded : Type 0 where
  pub header : Header
  pub indexed : Indexed

-- the second loop of Write: the entries are placed one behind the other from `cursor` on
unfoldable pub load : HandleSpec → ℕ → List Handle → ℕ → Loaded → Option Loaded
load spec prefix_len [] cursor l = some l
load spec prefix_len (h ∷ hs) cursor l =
    write_slot (l.header) prefix_len (Handle.offset h)
      record { offset_or_next = cursor; generation = 0; alive = true }
    >>=? λ header. append_entry (l.indexed) (Handle.offset h) h spec >>=? λ x.
        load spec prefix_len hs (uint32 (cursor + handle_length spec h))
          record { header = header; indexed = x }

abbrev pub empty_loaded : Header → Loaded
empty_loaded header = record {
  header = header;
  indexed = record {
    entries = record { pages = []; length = 0 };
    slot_to_entry = record { pages = []; length = 0 };
    id_index = none;
  };
}

unfoldable pub load_all : HandleSpec → List Handle → Option Loaded
load_all spec [] = some (empty_loaded (new_header (configured_length_bits spec)))
load_all spec (h ∷ hs) =
    let count = max_index (h ∷ hs) 0 + 1 in
    set_header_slot_count (new_header (configured_length_bits spec) ++ zeros count) (uint32 count)
    >>=? λ counted. set_header_live_count counted (uint32 (length (h ∷ hs))) >>=? λ header.
        header_prefix_len header >>=? λ prefix_len.
        load spec prefix_len (h ∷ hs) 0 (empty_loaded header)

abbrev pub snapshot_of : Snapshot → List ℕ → Loaded → Snapshot
snapshot_of old bytes l = record {
  bytes = bytes;
  header = l.header;
  entries = (l.indexed).entries;
  slot_to_entry = (l.indexed).slot_to_entry;
  holes = [];
  id_index = (l.indexed).id_index;
  tombstones = 0;
  compactions = old.compactions;
  defragments = old.defragments;
}

-- Write, of what the callback returns
unfoldable pub write : HandleSpec → Snapshot → List Handle → List ℕ → Outcome Snapshot
write spec old entries bytes =
    if leb max_offset (max_index entries 0)
    then some (err too_many_entries)
    else if ltb max_data_offset (total_length spec entries 0)
    then some (err data_exceeds_capacity)
    else (load_all spec entries >>=? λ l. some (ok (snapshot_of old bytes l)))

-- the `k` bytes of a little-endian number, and the number of such bytes
unfoldable pub put_le : ℕ → ℕ → List ℕ
put_le zero n = []
put_le (suc k) n = n % 256 ∷ put_le k (n / 256)

unfoldable pub get_le : List ℕ → ℕ
get_le [] = 0
get_le (b ∷ bs) = b + get_le bs * 256

abbrev pub put_entries : List Handle → List ℕ
put_entries [] = []
put_entries (h ∷ hs) = put_le 8 h ++ put_entries hs

-- 'A', 'N', 'R' and '1'
abbrev pub magic : List ℕ
magic = 65 ∷ 78 ∷ 82 ∷ 49 ∷ []

-- Export. The buffer is as long as the counts say, which are cut to 32 bits: an entry that has no
-- room panics, and `copy` copies what there is room for.
unfoldable pub export : Snapshot → Option (List ℕ)
export s = to_slice (s.entries) >>=? λ entries.
    if leb (2 ^ 32) (length entries)
    then none
    else (some (
        magic
        ++ (put_le 4 (length entries)
            ++ (put_le 4 (uint32 (length (s.bytes)))
                ++ (put_entries entries ++ take (uint32 (length (s.bytes))) (s.bytes))))))

abbrev pub get_entries : ℕ → List ℕ → List Handle
get_entries zero bytes = []
get_entries (suc n) bytes = get_le (take 8 bytes) ∷ get_entries n (drop 8 bytes)

abbrev pub is_magic : List ℕ → Bool
is_magic (a ∷ n ∷ r ∷ one ∷ rest) = (a == 65) && ((n == 78) && ((r == 82) && (one == 49)))
is_magic bytes = false

-- Import, behind the counts
unfoldable pub import_counted : HandleSpec → Snapshot → ℕ → ℕ → List ℕ → Outcome Snapshot
import_counted spec old num_entries data_len rest =
    if ltb (length rest) (num_entries * 8 + data_len)
    then some (err data_truncated)
    else write spec old (get_entries num_entries rest) (take data_len (drop (num_entries * 8) rest))

-- Import. The length it checks has 12 bytes less on both sides here.
unfoldable pub import : HandleSpec → Snapshot → List ℕ → Outcome Snapshot
import spec old bytes =
    if ltb (length bytes) 12
    then some (err data_too_short)
    else if is_magic bytes
    then import_counted spec old (get_le (take 4 (drop 4 bytes))) (get_le (take 4 (drop 8 bytes)))
        (drop 12 bytes)
    else some (err invalid_magic_header)
