-- ===== src/Registry/Snapshot.antt =====
-- core/bits/registry.go, Registry: the snapshot that its methods replace, each under the mutex of
-- the writers, so a method is a function of it. A snapshot is a value here: arrays that two slices
-- share, as those of Clone do, are not modelled. `K` are the keys and `T` the views; the functions
-- of the configuration are parameters.
pub mod Methods
pub mod Transfer
pub mod Laws
pub mod Update
pub mod Stored
pub mod Setting
pub mod Tests
use Prim.Native.Nat.{bit_and}
use go_anansi.Prelude.{
  ℕ, zero, suc, ◌+◌, ◌-◌, ◌*◌, ◌%◌, ◌^◌, Bool, true, false, ◌||◌, Option, none, some, List, [], ◌∷◌,
  ◌++◌, length, get_elem?, take, drop, ltb, leb, ◌==◌, if◌then◌else◌,
}
use go_anansi.Prelude.Int.{ℤ, pos, negsuc}
use go_anansi.Prelude.Result.{Result, ok, err}
use go_anansi.Handle.{HandleSpec, Handle, HandleError, max_id, configured_length_bits, int32}
use go_anansi.Handle
use go_anansi.Registry.Pages.{Pages, ◌>>=?◌, get, set, append, pop, slot_set, nowhere, set_elem?}
use go_anansi.Registry.Header.{Header, uint32, slot_offset, free_slot, new_header}
use go_anansi.Registry.Ids.{IdTable, lookup, insert_or_update, delete}

pub record Hole : Type 0 where
  pub offset : ℕ
  pub length : ℕ

pub record Snapshot : Type 0 where
  pub bytes : List ℕ
  pub header : Header
  pub entries : Pages Handle
  pub slot_to_entry : Pages ℤ
  pub holes : List Hole
  pub id_index : Option IdTable
  pub tombstones : ℕ
  pub compactions : ℕ
  pub defragments : ℕ

-- the threshold as NewRegistry keeps it
pub record Config (K T : Type 0) : Type 0 where
  pub spec : HandleSpec
  pub compaction_threshold : ℕ
  pub hash_key : Option (K → ℕ)
  pub new_view : Option (Handle → List ℕ → T)
  pub on_write : Option (Handle → ℕ → List ℕ → Handle × List ℕ)

pub data RegistryError : Type 0 where
  not_found too_many_entries data_exceeds_capacity : RegistryError
  missing_function different_length : RegistryError
  data_too_short invalid_magic_header data_truncated : RegistryError
  handle_error : HandleError → RegistryError

-- What a method gives: `none` where it panics.
abbrev pub Outcome : Type 0 → Type 0
Outcome A = Option (Result RegistryError A)

infixl 5 ◌>>=!◌
abbrev pub ◌>>=!◌ : {A B : Type 0} → Outcome A → (A → Outcome B) → Outcome B
none >>=! step = none
some (err e) >>=! step = some (err e)
some (ok a) >>=! step = step a

abbrev pub max_data_offset : ℕ
max_data_offset = 2 ^ 32 - 1

-- `uint32(n)` and `uint64(n)` of an int32
abbrev pub uint32_of : ℤ → ℕ
uint32_of (pos n) = n
uint32_of (negsuc n) = 2 ^ 32 - 1 - n

abbrev pub uint64_of : ℤ → ℕ
uint64_of (pos n) = n
uint64_of (negsuc n) = 2 ^ 64 - 1 - n

abbrev pub handle_length : HandleSpec → Handle → ℕ
handle_length spec h = uint32_of (Handle.length spec h)

-- an int as an index
abbrev pub index_of : ℤ → Option ℕ
index_of (pos n) = some n
index_of (negsuc n) = none

-- `bytes[start:end]`
abbrev pub bytes_at : List ℕ → ℕ → ℕ → Option (List ℕ)
bytes_at bytes start end =
    if ltb end start || ltb (length bytes) end
    then none
    else some (take (end - start) (drop start bytes))

-- `copy(bytes[start:end], written)`, where `written` is as long
abbrev pub overwrite : List ℕ → ℕ → ℕ → List ℕ → Option (List ℕ)
overwrite bytes start end written =
    bytes_at bytes start end >>=? λ room. some (take start bytes ++ (written ++ drop end bytes))

-- the three structures that say where an entry is
pub record Indexed : Type 0 where
  pub entries : Pages Handle
  pub slot_to_entry : Pages ℤ
  pub id_index : Option IdTable

unfoldable pub append_entry : Indexed → ℕ → Handle → HandleSpec → Option Indexed
append_entry x index h spec =
    let p = int32 ((x.entries).length) in
    append (x.entries) h >>=? λ entries. slot_set (x.slot_to_entry) index p >>=? λ slots.
    insert_or_update (x.id_index) (Handle.id spec h) p >>=? λ t.
    some record { entries = entries; slot_to_entry = slots; id_index = some t }

-- The entry at the last position takes the place of the one at `p`.
abbrev pub move_last : HandleSpec → ℕ → ℕ → Indexed → Option Indexed
move_last spec p last x =
    if p == last
    then some x
    else (get (x.entries) last >>=? λ moved. set (x.entries) p moved >>=? λ entries.
        slot_set (x.slot_to_entry) (Handle.offset moved) (int32 p) >>=? λ slots.
        insert_or_update (x.id_index) (Handle.id spec moved) (int32 p) >>=? λ t.
        some record { entries = entries; slot_to_entry = slots; id_index = some t })

-- `compactions++` where the table was compacted
abbrev pub count_if : Bool → ℕ → ℕ
count_if true n = (n + 1) % 2 ^ 64
count_if false n = n

abbrev pub offset_or_zero : Option ℕ → ℕ
offset_or_zero none = 0
offset_or_zero (some n) = n

abbrev pub indexed : Snapshot → Indexed
indexed s = record { entries = s.entries; slot_to_entry = s.slot_to_entry; id_index = s.id_index }

-- A position is not past the last entry, so there is one where `get` succeeds.
unfoldable pub delete_pos : HandleSpec → ℕ → Snapshot → ℕ → Option Snapshot
delete_pos spec threshold old p = get (old.entries) p >>=? λ e.
    move_last spec p ((old.entries).length - 1) (indexed old) >>=? λ x.
    pop (x.entries) >>=? λ entries.
    slot_set (x.slot_to_entry) (Handle.offset e) nowhere >>=? λ slots.
    delete (x.id_index) (Handle.id spec e) threshold >>=? λ deleted.
    slot_offset (old.header) (Handle.offset e) >>=? λ start.
    free_slot (old.header) (Handle.offset e) >>=? λ header. some record {
      bytes = old.bytes;
      header = header;
      entries = entries;
      slot_to_entry = slots;
      holes =
          old.holes
          ++ (record { offset = offset_or_zero start; length = handle_length spec e } ∷ []);
      id_index = deleted.0;
      tombstones = old.tombstones;
      compactions = count_if (deleted.1) (old.compactions);
      defragments = old.defragments;
    }

-- the snapshot of NewRegistry and of Clear
unfoldable pub empty_snapshot : HandleSpec → Snapshot
empty_snapshot spec = record {
  bytes = [];
  header = new_header (configured_length_bits spec);
  entries = record { pages = []; length = 0 };
  slot_to_entry = record { pages = []; length = 0 };
  holes = [];
  id_index = none;
  tombstones = 0;
  compactions = 0;
  defragments = 0;
}
