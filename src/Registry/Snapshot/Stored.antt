-- ===== src/Registry/Snapshot/Stored.antt =====
-- core/bits/registry.go, the end of Set and Get: what Set stores is what Get finds.
use go_anansi.Prelude.{
  ℕ, ◌⊎◌, inl, inr, ◌+◌, ◌-◌, ◌*◌, ◌/◌, ◌%◌, ◌^◌, ◌≤◌, ◌<◌, ◌≡◌, refl, sym, ap, ◌∙◌, arith, Bool,
  true, false, Option, none, some, List, [], ◌∷◌, ◌++◌, length, get_elem?, take, drop, ltb, leb,
  if◌then◌else◌,
}
use mathlib.Core.Path.{subst}
use go_anansi.Prelude.Word.{bit_and-ones}
use go_anansi.Prelude.Int.{ℤ, pos}
use go_anansi.Prelude.Result.{ok}
use go_anansi.Handle.{HandleSpec, Handle, int32}
use go_anansi.Handle
use go_anansi.Registry.Pages.{Pages, ◌>>=?◌, get, append, slot_set}
use go_anansi.Registry.Pages.Flat.{replace, get_elem-replace, get_elem_right}
use go_anansi.Registry.Pages.Laws.{IsValid, elements, get-elements, append-elements}
use go_anansi.Registry.Pages.Refine.{length-elements}
use go_anansi.Registry.Header.{
  Header, decode_slot, encode_slot, slot_offset, set_slot_offset, header_slot_count, uint32,
}
use go_anansi.Registry.Header.Codec.{slot, decode-encode_slot}
use go_anansi.Registry.Header.Slots.{header_of, IsHeader, prefix_lem, read_slot_lem, write_slot_lem}
use go_anansi.Registry.Ids.{
  IdTable, lookup, insert_or_update, insert_or_update_in_place, rehashed, cap_for_count,
  new_id_table, min_id_table_cap,
}
use go_anansi.Registry.Ids.Laws.{lookup-insert, bind-some, get_elem_range}
use go_anansi.Registry.Snapshot.{
  Hole, Snapshot, Config, Indexed, append_entry, handle_length, bytes_at,
}
use go_anansi.Registry.Snapshot.Methods.{get_key, stored, id_of, view_at}
use go_anansi.Registry.Header.{Allocated}

if-some :
    {A : Type 0} (b : Bool) {x y : Option A} {a : A}
    → (if b then x else y) ≡ some a
    → (x ≡ some a) ⊎ (y ≡ some a)
if-some true h = inl h
if-some false h = inr h

lookup-insert_or_update :
    (old : Option IdTable) (id : ℕ) (v : ℤ) (new : IdTable)
    → insert_or_update old id v ≡ some new
    → lookup (some new) id ≡ some (some v)
unfolding insert_or_update
lookup-insert_or_update none id v new done =
    lookup-insert (new_id_table min_id_table_cap) new id v done
lookup-insert_or_update (some t) id v new done =
    elim (if-some (leb (length t.cells * 7) ((t.count + t.tomb + 1) * 10)) done) [
      | inl grown ↦
          let (nt, made, rest) =
            bind-some (rehashed t (cap_for_count (t.count + 1)))
              (λ (nt : IdTable). insert_or_update_in_place nt id v) grown in
          lookup-insert nt new id v rest
      | inr in_place ↦ lookup-insert t new id v in_place
    ]

generation_lem : (w : ℕ) → (decode_slot w).generation < 2 ^ 31
unfolding decode_slot
generation_lem w = ground (arith, bit_and-ones 31 (w / 2 ^ 32))

module _ (w0 w1 w2 : ℕ) (slots : List ℕ) (index w start : ℕ) (v : IsHeader w0 w1) where
  placed : Header
  placed =
      header_of w0 w1 w2
        (replace slots index (encode_slot (slot start (decode_slot w).generation true)))

  set_slot_offset_lem :
      get_elem? slots index ≡ some w
      → set_slot_offset (header_of w0 w1 w2 slots) index start ≡ some placed
  unfolding placed set_slot_offset
  set_slot_offset_lem h =
      let read = read_slot_lem w0 w1 w2 slots index w h in
      let write =
        write_slot_lem w0 w1 w2 slots index (slot start (decode_slot w).generation true)
          (get_elem_range slots index w h) in
      rw (prefix_lem w0 w1 w2 slots v, read) write

  slot_offset-placed :
      get_elem? slots index ≡ some w
      → index < w2 % 2 ^ 32
      → start < 2 ^ 32
      → slot_offset placed index ≡ some (some start)
  unfolding placed slot_offset header_slot_count
  slot_offset-placed h live fits =
      let kept = slot start (decode_slot w).generation true in
      let after = replace slots index (encode_slot kept) in
      let there : get_elem? after index ≡ some (encode_slot kept) =
        get_elem-replace slots index (encode_slot kept) (get_elem_range slots index w h) in
      let counted : leb (w2 % 2 ^ 32) index ≡ false = ground arith in
      let decoded : decode_slot (encode_slot kept) ≡ kept =
        decode-encode_slot kept fits (generation_lem w) in
      rw
        (
          prefix_lem w0 w1 w2 after v,
          read_slot_lem w0 w1 w2 after index (encode_slot kept) there,
          counted,
          decoded,
        )
        refl

append_reads :
    (pe : Pages Handle) (h : Handle)
    → IsValid pe
    → (new : Pages Handle) × (append pe h ≡ some new) × (get new pe.length ≡ some h)
append_reads pe h v =
    let (new, added, valid, same, len) = append-elements pe h v in
    (
      new,
      added,
      get-elements new pe.length valid (omega (arith, len))
          ∙ ap (λ (xs : List Handle). get_elem? xs pe.length) same
          ∙ ap (get_elem? (elements pe ++ (h ∷ []))) {y = length (elements pe) + 0}
              (omega (arith, length-elements pe v))
          ∙ get_elem_right (elements pe) (h ∷ []) 0,
    )

pub some-injective : {A : Type 0} (a b : A) → ◌≡◌ {A = Option A} (some a) (some b) → a ≡ b
some-injective a b h = cc

bind-known :
    {A B : Type 0} (o : Option A) (f : A → Option B) {a : A} {b : B}
    → o ≡ some a
    → (o >>=? f) ≡ some b
    → f a ≡ some b
bind-known o f e h = ap (λ (t : Option _). t >>=? f) (sym e) ∙ h

abbrev indexed_by : Pages Handle → Pages ℤ → IdTable → Indexed
indexed_by entries slots t = record { entries = entries; slot_to_entry = slots; id_index = some t }

-- An entry that is appended is read at the position that its ID is looked up at.
append_entry_lem :
    (x y : Indexed) (index : ℕ) (h : Handle) (spec : HandleSpec)
    → IsValid x.entries
    → append_entry x index h spec ≡ some y
    → (get y.entries (x.entries).length ≡ some h)
      × (lookup y.id_index (Handle.id spec h) ≡ some (some (int32 (x.entries).length)))
unfolding append_entry
append_entry_lem x y index h spec v done =
    let (longer, added, read) = append_reads x.entries h v in
    let p = int32 (x.entries).length in
    let id = Handle.id spec h in
    let with_slots = λ (slots : Pages ℤ).
      insert_or_update x.id_index id p >>=? λ t. some (indexed_by longer slots t) in
    let (slots, set, after) = bind-some (slot_set x.slot_to_entry index p) with_slots (
      bind-known (append x.entries h)
        (λ (entries : Pages Handle). slot_set x.slot_to_entry index p >>=? λ slots.
          insert_or_update x.id_index id p >>=? λ t. some (indexed_by entries slots t))
        added done) in
    let (t, inserted, last) =
      bind-some (insert_or_update x.id_index id p)
        (λ (t : IdTable). some (indexed_by longer slots t)) after in
    let made = some-injective (indexed_by longer slots t) y last in
    (
      ap (λ (z : Indexed). get z.entries (x.entries).length) (sym made) ∙ read,
      ap (λ (z : Indexed). lookup z.id_index (Handle.id spec h)) (sym made)
          ∙ lookup-insert_or_update x.id_index (Handle.id spec h) (int32 (x.entries).length) t
              inserted,
    )

-- A slot that was allocated in a header of three words before its slots: one of those that are
-- counted.
pub record IsSlot (header : Header) (index : ℕ) : Type 0 where
  pub w0 : ℕ
  pub w1 : ℕ
  pub w2 : ℕ
  pub slots : List ℕ
  pub w : ℕ
  pub words : header ≡ header_of w0 w1 w2 slots
  pub prefixed : IsHeader w0 w1
  pub there : get_elem? slots index ≡ some w
  pub counted : index < w2 % 2 ^ 32

-- the entry that is stored, as Get looks for it
record Finds (s : Snapshot) (spec : HandleSpec) (h : Handle) (p index start : ℕ) (bytes : List ℕ)
    : Type 0 where
  looked_up : lookup s.id_index (Handle.id spec h) ≡ some (some (int32 p))
  read : get s.entries p ≡ some h
  located : slot_offset s.header index ≡ some (some start)
  same : s.bytes ≡ bytes

indexed_in : Snapshot → Allocated → Indexed
indexed_in old a = record {
  entries = old.entries;
  slot_to_entry = a.slot_to_entry;
  id_index = old.id_index;
}

abbrev snapshot_with : Snapshot → List ℕ → List Hole → Header → Indexed → Snapshot
snapshot_with old bytes holes header x = record {
  bytes = bytes;
  header = header;
  entries = x.entries;
  slot_to_entry = x.slot_to_entry;
  holes = holes;
  id_index = x.id_index;
  tombstones = old.tombstones;
  compactions = old.compactions;
  defragments = old.defragments;
}

stored-Finds :
    (spec : HandleSpec) (old new : Snapshot) (a : Allocated) (bytes : List ℕ) (holes : List Hole)
    (start : ℕ) (h : Handle)
    → IsValid old.entries
    → IsSlot a.header a.index
    → start < 2 ^ 32
    → stored spec old a bytes holes start h ≡ some new
    → Finds new spec h (old.entries).length a.index start bytes
unfolding stored indexed_in
stored-Finds spec old new a bytes holes start h v slot_there fits done =
    let place =
      placed slot_there.w0 slot_there.w1 slot_there.w2 slot_there.slots a.index slot_there.w start
        slot_there.prefixed in
    let moved : set_slot_offset a.header a.index start ≡ some place =
      ap (λ (t : Header). set_slot_offset t a.index start) slot_there.words
      ∙ set_slot_offset_lem slot_there.w0 slot_there.w1 slot_there.w2 slot_there.slots a.index
          slot_there.w start slot_there.prefixed slot_there.there in
    let (x, appended, last) =
      bind-some (append_entry (indexed_in old a) a.index h spec)
        (λ (x : Indexed). some (snapshot_with old bytes holes place x))
        (bind-known (set_slot_offset a.header a.index start)
          (λ (header : Header). append_entry (indexed_in old a) a.index h spec >>=? λ x.
            some (snapshot_with old bytes holes header x))
          moved done) in
    let made = some-injective (snapshot_with old bytes holes place x) new last in
    let (entry, looked) = append_entry_lem (indexed_in old a) x a.index h spec v appended in
    record {
      looked_up = ap (λ (s : Snapshot). lookup s.id_index (Handle.id spec h)) (sym made) ∙ looked;
      read = ap (λ (s : Snapshot). get s.entries (old.entries).length) (sym made) ∙ entry;
      located =
          ap (λ (s : Snapshot). slot_offset s.header a.index) (sym made)
          ∙ slot_offset-placed slot_there.w0 slot_there.w1 slot_there.w2 slot_there.slots a.index
              slot_there.w start slot_there.prefixed slot_there.there slot_there.counted fits;
      same = ap (λ (s : Snapshot). s.bytes) (sym made);
    }

int32_lem : (p : ℕ) → p < 2 ^ 31 → int32 p ≡ pos p
int32_lem p h =
    let word : p % 2 ^ 32 ≡ p = omega arith in
    let small : ltb p (2 ^ 31) ≡ true = ground arith in rw (word, small) refl

bytes_at_lem :
    (bytes : List ℕ) (start len : ℕ)
    → start + len ≤ length bytes
    → start + len < 2 ^ 32
    → bytes_at bytes start (uint32 (start + len)) ≡ some (take len (drop start bytes))
bytes_at_lem bytes start len inside short =
    let word : (start + len) % 2 ^ 32 ≡ start + len = omega arith in
    let rises : ltb (start + len) start ≡ false = ground arith in
    let within : ltb (length bytes) (start + len) ≡ false = ground arith in
    let size : start + len - start ≡ len = omega arith in rw (word, rises, within, size) refl

module _ {K T : Type 0} (cfg : Config K T) (hash_key : K → ℕ) (new_view : Handle → List ℕ → T)
    (key : K) where
  view_at_lem :
      (s : Snapshot) (h : Handle) (start : ℕ)
      → start + handle_length cfg.spec h ≤ length s.bytes
      → start + handle_length cfg.spec h < 2 ^ 32
      → view_at cfg new_view s h (some start)
        ≡ some (ok (new_view h (take (handle_length cfg.spec h) (drop start s.bytes))))
  view_at_lem s h start inside short =
      let within : ltb (length s.bytes) (start + handle_length cfg.spec h) ≡ false = ground arith in
      rw (within, bytes_at_lem s.bytes start (handle_length cfg.spec h) inside short) refl

  get_key-Finds :
      (s : Snapshot) (h : Handle) (p start : ℕ) (bytes : List ℕ)
      → cfg.hash_key ≡ some hash_key
      → cfg.new_view ≡ some new_view
      → Handle.id cfg.spec h ≡ id_of cfg hash_key key
      → p < 2 ^ 31
      → start + handle_length cfg.spec h ≤ length bytes
      → start + handle_length cfg.spec h < 2 ^ 32
      → Finds s cfg.spec h p (Handle.offset h) start bytes
      → get_key cfg s key
        ≡ some (ok (new_view h (take (handle_length cfg.spec h) (drop start bytes))))
  unfolding get_key
  get_key-Finds s h p start bytes hashes views named few inside short f =
      let len = handle_length cfg.spec h in
      let found : lookup s.id_index (id_of cfg hash_key key) ≡ some (some (pos p)) =
        ap (lookup s.id_index) (sym named)
        ∙ f.looked_up
        ∙ ap (λ (z : ℤ). some (some z)) (int32_lem p few) in
      let sliced : view_at cfg new_view s h (some start)
          ≡ some (ok (new_view h (take len (drop start bytes)))) =
        view_at_lem s h start (subst (λ (b : List ℕ). start + len ≤ length b) (sym f.same) inside)
          short
        ∙ ap (λ (b : List ℕ). some (ok (new_view h (take len (drop start b))))) f.same in
      rw (hashes, views, found, f.read, f.located) sliced

  -- Where Set stores an entry in a slot that is counted, with an ID that is the one of the key, behind
  -- fewer than 2 ^ 31 well paged entries, and its bytes lie within the byte store and below 2 ^ 32, Get of the
  -- key gives the view of these bytes.
  pub get_key-stored :
      (old new : Snapshot) (a : Allocated) (bytes : List ℕ) (holes : List Hole) (start : ℕ)
      (h : Handle)
      → cfg.hash_key ≡ some hash_key
      → cfg.new_view ≡ some new_view
      → IsValid old.entries
      → (old.entries).length < 2 ^ 31
      → IsSlot a.header (Handle.offset h)
      → a.index ≡ Handle.offset h
      → Handle.id cfg.spec h ≡ id_of cfg hash_key key
      → start + handle_length cfg.spec h ≤ length bytes
      → start + handle_length cfg.spec h < 2 ^ 32
      → stored cfg.spec old a bytes holes start h ≡ some new
      → get_key cfg new key
        ≡ some (ok (new_view h (take (handle_length cfg.spec h) (drop start bytes))))
  get_key-stored old new a bytes holes start h hashes views v few slot_there at_offset named inside
        short done =
      get_key-Finds new h (old.entries).length start bytes hashes views named few inside short (
        subst (λ (i : ℕ). Finds new cfg.spec h (old.entries).length i start bytes) at_offset
          (stored-Finds cfg.spec old new a bytes holes start h v
            (subst (IsSlot a.header) (sym at_offset) slot_there) (omega arith) done))
