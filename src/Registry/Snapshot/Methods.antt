-- ===== src/Registry/Snapshot/Methods.antt =====
-- core/bits/registry.go, Get, Set, Delete, Handle and UpdateHandle. A header
-- that an error frees a slot in is a copy that is thrown away, so the error alone is given.
use Prim.Native.Nat.{bit_and}
use go_anansi.Prelude.{
  ℕ, suc, ◌+◌, ◌-◌, Option, none, some, List, [], ◌∷◌, ◌++◌, length, get_elem?, take, ltb, ◌==◌,
  if◌then◌else◌,
}
use go_anansi.Prelude.Int.{ℤ, pos}
use go_anansi.Prelude.Result.{Result, ok, err, ◌>>=◌}
use go_anansi.Handle.{HandleSpec, Handle, HandleError, handle, set_id, max_id, max_length}
use go_anansi.Handle
use go_anansi.Registry.Pages.{Pages, ◌>>=?◌, get, set, set_elem?}
use go_anansi.Registry.Header.{
  uint32, slot_offset, set_slot_offset, alloc_slot, Allocated, AllocError,
}
use go_anansi.Registry.Ids.{lookup}
use go_anansi.Registry.Snapshot.{
  Hole, Snapshot, Config, not_found, too_many_entries, data_exceeds_capacity, missing_function,
  different_length, handle_error, Outcome, ◌>>=!◌, max_data_offset, handle_length, index_of,
  bytes_at, overwrite, append_entry, delete_pos,
}

-- the error of a call, as one of the registry
abbrev pub of_handle : Result HandleError Handle → Outcome Handle
of_handle (ok h) = some (ok h)
of_handle (err e) = some (err (handle_error e))

abbrev pub of_alloc : Option (Result AllocError Allocated) → Outcome Allocated
of_alloc none = none
of_alloc (some (ok a)) = some (ok a)
of_alloc (some (err e)) = some (err too_many_entries)

-- a step without an error
abbrev pub steps : {A : Type 0} → Option A → Outcome A
steps none = none
steps (some a) = some (ok a)

-- `Handle` and `SetID` of a new entry
abbrev pub new_handle : HandleSpec → ℕ → ℕ → ℕ → Outcome Handle
new_handle spec index need id =
    of_handle (handle spec (pos index) (pos need) >>= λ (h : Handle). set_id spec h id)

abbrev pub OnWrite : Type 0
OnWrite = Handle → ℕ → List ℕ → Handle × List ℕ

-- the handle and the bytes to be written
unfoldable pub written : Option OnWrite → Handle → ℕ → List ℕ → Outcome (Handle × List ℕ)
written none h start value = some (ok (h, value))
written (some on_write) h start value =
    let out = on_write h start value in
    if length (out.1) == length value then some (ok out) else some (err different_length)

-- the first hole of at least `need` bytes, with its place
abbrev pub FirstFit : Type 0
FirstFit = Option (ℕ × Hole)

abbrev pub later : FirstFit → FirstFit
later none = none
later (some found) = some (suc (found.0), found.1)

unfoldable pub first_fit : ℕ → List Hole → FirstFit
first_fit need [] = none
first_fit need (hl ∷ rest) =
    let after = first_fit need rest in if ltb (hl.length) need then later after else some (0, hl)

-- The last hole takes the place of the one at `i`.
unfoldable pub remove_hole : List Hole → ℕ → Option (List Hole)
remove_hole holes i = get_elem? holes (length holes - 1) >>=? λ last.
    set_elem? holes i last >>=? λ moved. some (take (length holes - 1) moved)

-- what is left of a hole
abbrev pub remainder : Hole → ℕ → List Hole
remainder hl need =
    if ltb (uint32 need) (hl.length)
    then record { offset = uint32 (hl.offset + uint32 need); length = hl.length - uint32 need } ∷ []
    else []

-- the snapshot after an entry is added: the byte store, the holes and the start of the entry
unfoldable pub stored :
    HandleSpec → Snapshot → Allocated → List ℕ → List Hole → ℕ → Handle → Option Snapshot
stored spec old a bytes holes start h = set_slot_offset (a.header) (a.index) start >>=? λ header.
    append_entry
      record { entries = old.entries; slot_to_entry = a.slot_to_entry; id_index = old.id_index }
      (a.index) h spec
    >>=? λ x. some record {
      bytes = bytes;
      header = header;
      entries = x.entries;
      slot_to_entry = x.slot_to_entry;
      holes = holes;
      id_index = x.id_index;
      tombstones = old.tombstones;
      compactions = old.compactions;
      defragments = old.defragments;
    }

abbrev pub handle_at : Snapshot → ℤ → Option Handle
handle_at s p = index_of p >>=? get (s.entries)

-- Handle
abbrev handle_found : Snapshot → Option ℤ → Option (Option Handle)
handle_found s none = some none
handle_found s (some p) = handle_at s p >>=? λ h. some (some h)

unfoldable pub handle_of : Snapshot → ℕ → Option (Option Handle)
handle_of s id = lookup (s.id_index) id >>=? handle_found s

abbrev pub with_entries : Snapshot → Pages Handle → Snapshot
with_entries s entries = record s { entries = entries }

-- UpdateHandle, at the position of the handle's ID
abbrev pub update_at : Snapshot → Handle → ℕ → Option (Option (Handle × Snapshot))
update_at old h p = get (old.entries) p >>=? λ old_handle.
    if Handle.offset h == Handle.offset old_handle
    then (set (old.entries) p h >>=? λ entries. some (some (old_handle, with_entries old entries)))
    else some none

abbrev pub update_found : Snapshot → Handle → Option ℤ → Option (Option (Handle × Snapshot))
update_found old h none = some none
update_found old h (some p) = index_of p >>=? update_at old h

-- UpdateHandle: the handle before and the snapshot after; none where it returns false
unfoldable pub update_handle : HandleSpec → Snapshot → Handle → Option (Option (Handle × Snapshot))
update_handle spec old h = lookup (old.id_index) (Handle.id spec h) >>=? update_found old h

module _ {K T : Type 0} where
  abbrev pub id_of : Config K T → (K → ℕ) → K → ℕ
  id_of cfg hash_key key = bit_and (hash_key key) (max_id (cfg.spec))

  -- the view of an entry that begins at `start`
  abbrev pub view_at : Config K T → (Handle → List ℕ → T) → Snapshot → Handle → Option ℕ → Outcome T
  view_at cfg new_view s h none = some (err not_found)
  view_at cfg new_view s h (some start) =
      let len = handle_length (cfg.spec) h in
      if ltb (length (s.bytes)) (start + len)
      then some (err not_found)
      else (bytes_at (s.bytes) start (uint32 (start + len)) >>=? λ slice.
          some (ok (new_view h slice)))

  abbrev pub get_found : Config K T → (Handle → List ℕ → T) → Snapshot → Option ℤ → Outcome T
  get_found cfg new_view s none = some (err not_found)
  get_found cfg new_view s (some p) =
      handle_at s p >>=? λ h. slot_offset (s.header) (Handle.offset h) >>=? view_at cfg new_view s h

  abbrev get_with :
      Config K T → Option (K → ℕ) → Option (Handle → List ℕ → T) → Snapshot → K → Outcome T
  get_with cfg none new_view s key = some (err not_found)
  get_with cfg (some hash_key) none s key = some (err not_found)
  get_with cfg (some hash_key) (some new_view) s key =
      lookup (s.id_index) (id_of cfg hash_key key) >>=? get_found cfg new_view s

  -- Get
  unfoldable pub get_key : Config K T → Snapshot → K → Outcome T
  get_key cfg s key = get_with cfg (cfg.hash_key) (cfg.new_view) s key

  -- the entry that is already there for the ID
  abbrev pub replaced : Config K T → Snapshot → Option ℤ → Option Snapshot
  replaced cfg old none = some old
  replaced cfg old (some p) = index_of p >>=? delete_pos (cfg.spec) (cfg.compaction_threshold) old

  -- Set, with the entry in a hole
  abbrev pub set_in_hole :
      Config K T
      → (Handle → List ℕ → T)
      → Snapshot
      → Allocated
      → ℕ
      → List ℕ
      → ℕ
      → Hole
      → Outcome (T × Snapshot)
  set_in_hole cfg new_view old a id value i hl =
      let need = length value in
      let end = uint32 (hl.offset + uint32 need) in
      steps (remove_hole (old.holes) i) >>=! λ holes.
      new_handle (cfg.spec) (a.index) need id >>=! λ h.
      written (cfg.on_write) h (hl.offset) value >>=! λ w.
      steps (overwrite (old.bytes) (hl.offset) end (w.1)) >>=! λ bytes.
      steps (stored (cfg.spec) old a bytes (holes ++ remainder hl need) (hl.offset) (w.0)) >>=! λ s.
      steps (bytes_at bytes (hl.offset) end) >>=! λ slice. some (ok (new_view (w.0) slice, s))

  -- Set, with the entry behind all bytes
  abbrev pub set_behind :
      Config K T
      → (Handle → List ℕ → T)
      → Snapshot
      → Allocated
      → ℕ
      → List ℕ
      → Outcome (T × Snapshot)
  set_behind cfg new_view old a id value =
      let need = length value in
      let new_start = uint32 (length (old.bytes)) in
      if ltb max_data_offset (new_start + need)
      then some (err data_exceeds_capacity)
      else (new_handle (cfg.spec) (a.index) need id >>=! λ h.
          written (cfg.on_write) h new_start value >>=! λ w.
          steps (stored (cfg.spec) old a (old.bytes ++ (w.1)) (old.holes) new_start (w.0)) >>=! λ s.
          steps (bytes_at (old.bytes ++ (w.1)) new_start (uint32 (new_start + uint32 need)))
          >>=! λ slice. some (ok (new_view (w.0) slice, s)))

  abbrev pub set_fit :
      Config K T
      → (Handle → List ℕ → T)
      → Snapshot
      → Allocated
      → ℕ
      → List ℕ
      → FirstFit
      → Outcome (T × Snapshot)
  set_fit cfg new_view old a id value none = set_behind cfg new_view old a id value
  set_fit cfg new_view old a id value (some found) =
      set_in_hole cfg new_view old a id value (found.0) (found.1)

  abbrev set_with :
      Config K T
      → Option (K → ℕ)
      → Option (Handle → List ℕ → T)
      → Snapshot
      → K
      → List ℕ
      → Outcome (T × Snapshot)
  set_with cfg none new_view old key value = some (err missing_function)
  set_with cfg (some hash_key) none old key value = some (err missing_function)
  set_with cfg (some hash_key) (some new_view) old key value =
      let id = id_of cfg hash_key key in
      steps (lookup (old.id_index) id >>=? replaced cfg old) >>=! λ s.
      of_alloc (alloc_slot (s.header) (s.slot_to_entry)) >>=! λ a.
      set_fit cfg new_view s a id value (first_fit (length value) (s.holes))

  -- Set: the view, and the snapshot that is stored
  unfoldable pub set_key : Config K T → Snapshot → K → List ℕ → Outcome (T × Snapshot)
  set_key cfg old key value =
      if ltb (max_length (cfg.spec)) (length value)
      then some (err (handle_error Handle.length_exceeds_bit_space))
      else set_with cfg (cfg.hash_key) (cfg.new_view) old key value

  abbrev delete_found : Config K T → Snapshot → Option ℤ → Option (Option Snapshot)
  delete_found cfg old none = some none
  delete_found cfg old (some p) = index_of p >>=? λ i.
      delete_pos (cfg.spec) (cfg.compaction_threshold) old i >>=? λ s. some (some s)

  abbrev delete_with : Config K T → Option (K → ℕ) → Snapshot → K → Option (Option Snapshot)
  delete_with cfg none old key = some none
  delete_with cfg (some hash_key) old key =
      lookup (old.id_index) (id_of cfg hash_key key) >>=? delete_found cfg old

  -- Delete: the snapshot that is stored; none where it returns false
  unfoldable pub delete_key : Config K T → Snapshot → K → Option (Option Snapshot)
  delete_key cfg old key = delete_with cfg (cfg.hash_key) old key
