-- ===== src/Registry/Snapshot/Setting.antt =====
-- core/bits/registry.go, Set and Get: the view that Set gives is the one that Get finds.
use go_anansi.Prelude.{
  ℕ, Bool, zero, suc, take-append, ◌+◌, ◌-◌, ◌%◌, ◌^◌, ◌≤◌, ◌<◌, ◌≡◌, refl, sym, ap, ◌∙◌, arith,
  true, false, Option, none, some, List, [], ◌∷◌, ◌++◌, length, take, drop, ltb, ◌||◌, ◌⊎◌, inl,
  inr, Bool-cases, Option-cases, if◌then◌else◌,
}
use mathlib.Core.Path.{subst}
use go_anansi.Prelude.Word.{pow-le_two}
use go_anansi.Prelude.Result.{ok, err}
use go_anansi.Handle.{HandleSpec, Handle, int32}
use go_anansi.Handle
use go_anansi.Handle.Masks.{IsSpec}
use go_anansi.Handle.Laws.{handle-set_id}
use go_anansi.Registry.Pages.Laws.{IsValid}
use go_anansi.Registry.Ids.Laws.{bind-some}
use go_anansi.Registry.Snapshot.Laws.{drop-append, take_all}
use go_anansi.Registry.Header.{Allocated, uint32}
use go_anansi.Registry.Snapshot.{
  Hole, Snapshot, Config, Outcome, ◌>>=!◌, RegistryError, uint32_of, handle_length, bytes_at,
  overwrite, max_data_offset, data_exceeds_capacity,
}
use go_anansi.Registry.Snapshot.Methods.{
  get_key, stored, id_of, set_behind, set_in_hole, set_fit, first_fit, FirstFit, later, remove_hole,
  remainder, steps, new_handle, written,
}
use go_anansi.Registry.Snapshot.Stored.{IsSlot, get_key-stored, some-injective}

pub outcome-ok :
    {A B : Type 0} (o : Outcome A) (f : A → Outcome B) {b : B}
    → (o >>=! f) ≡ some (ok b)
    → (a : A) × (o ≡ some (ok a)) × (f a ≡ some (ok b))
outcome-ok none f h = cc
outcome-ok (some (err e)) f h = cc
outcome-ok (some (ok a)) f h = (a, refl, h)

pub outcome-known :
    {A B : Type 0} (o : Outcome A) (f : A → Outcome B) {a : A} {b : B}
    → o ≡ some (ok a)
    → (o >>=! f) ≡ some (ok b)
    → f a ≡ some (ok b)
outcome-known o f e h = ap (λ (t : Outcome _). t >>=! f) (sym e) ∙ h

pair-injective : {A : Type 0} (a b : A) → ◌≡◌ {A = Outcome A} (some (ok a)) (some (ok b)) → a ≡ b
pair-injective a b h = cc

else-ok :
    {A : Type 0} (b : Bool) (e : RegistryError) (o : Outcome A) {a : A}
    → (if b then some (err e) else o) ≡ some (ok a)
    → (b ≡ false) × (o ≡ some (ok a))
else-ok true e o h = cc
else-ok false e o h = (refl, h)

steps-ok : {A : Type 0} (o : Option A) {a : A} → steps o ≡ some (ok a) → o ≡ some a
steps-ok none h = cc
steps-ok (some b) h = cc

uint32_of-int32 : (n : ℕ) → n < 2 ^ 32 → uint32_of (int32 n) ≡ n
uint32_of-int32 n h =
    let word : n % 2 ^ 32 ≡ n = omega arith in
    elim (Bool-cases (ltb n (2 ^ 31))) [
      | inl small ↦ rw (word, small) refl
      | inr large ↦ rw (word, large) (omega arith)
    ]

slice-some :
    (b : Bool) (x : List ℕ) {slice : List ℕ}
    → ◌≡◌ {A = Option (List ℕ)} (if b then none else some x) (some slice)
    → (b ≡ false) × (slice ≡ x)
slice-some true x h = cc
slice-some false x h = (refl, cc)

or-false : (a b : Bool) → (a || b) ≡ false → (a ≡ false) × (b ≡ false)
or-false true b h = cc
or-false false b h = (refl, h)

-- A slice that Go gives lies within the bytes.
bytes_at-within :
    (bytes slice : List ℕ) (start need : ℕ)
    → start < 2 ^ 32
    → need < 2 ^ 32
    → bytes_at bytes start (uint32 (start + uint32 need)) ≡ some slice
    → (start + need ≤ length bytes)
      × (start + need < 2 ^ 32)
      × (slice ≡ take need (drop start bytes))
bytes_at-within bytes slice start need small short h =
    let end = uint32 (start + uint32 need) in
    let (test, same) = slice-some (ltb end start || ltb (length bytes) end) _ h in
    let (rises, within) = or-false (ltb end start) (ltb (length bytes) end) test in
    let up : start ≤ (start + need % 2 ^ 32) % 2 ^ 32 = ground (arith, rises) in
    let below : (start + need % 2 ^ 32) % 2 ^ 32 ≤ length bytes = ground (arith, within) in
    let size : (start + need % 2 ^ 32) % 2 ^ 32 - start ≡ need = omega (arith, up) in
    (
      omega (arith, up, below),
      omega (arith, up),
      same ∙ ap (λ (n : ℕ). take n (drop start bytes)) size,
    )

new_handle_lem :
    (spec : HandleSpec) (index need id : ℕ)
    → IsSpec spec
    → index < 2 ^ 16
    → need < 2 ^ spec
    → id < 2 ^ (48 - spec)
    → (h : Handle) × (new_handle spec index need id ≡ some (ok h))
      × (Handle.offset h ≡ index)
      × (handle_length spec h ≡ need)
      × (Handle.id spec h ≡ id)
new_handle_lem spec index need id v in_table fits_length fits_id =
    let (h, made, at_index, long, named) =
      handle-set_id spec index need id v in_table fits_length fits_id in
    (
      h,
      rw made refl,
      at_index,
      ap uint32_of long ∙ uint32_of-int32 need (omega (arith, pow-le_two spec 32 v.at_most)),
      named,
    )

module _ {K T : Type 0} (cfg : Config K T) (hash_key : K → ℕ) (new_view : Handle → List ℕ → T)
    (key : K) (old new : Snapshot) (a : Allocated) (start : ℕ) (h : Handle) (need : ℕ) (view : T)
    (value : List ℕ) where
  -- the end of Set in both of its branches
  set_end : List ℕ → List Hole → Outcome (T × Snapshot)
  set_end bytes holes = steps (stored cfg.spec old a bytes holes start h) >>=! λ s.
      steps (bytes_at bytes start (uint32 (start + uint32 need))) >>=! λ slice.
      some (ok (new_view h slice, s))

  set_end-get_key :
      (bytes : List ℕ) (holes : List Hole)
      → cfg.hash_key ≡ some hash_key
      → cfg.new_view ≡ some new_view
      → IsValid old.entries
      → (old.entries).length < 2 ^ 31
      → IsSlot a.header a.index
      → Handle.offset h ≡ a.index
      → Handle.id cfg.spec h ≡ id_of cfg hash_key key
      → handle_length cfg.spec h ≡ need
      → start < 2 ^ 32
      → need < 2 ^ 32
      → take need (drop start bytes) ≡ value
      → set_end bytes holes ≡ some (ok (view, new))
      → (view ≡ new_view h value) × (get_key cfg new key ≡ some (ok view))
  unfolding set_end
  set_end-get_key bytes holes hashes views v few slot_there at_index named long small short holds
        done =
      let (s, kept, after) =
        outcome-ok (steps (stored cfg.spec old a bytes holes start h))
          (λ (s : Snapshot).
            steps (bytes_at bytes start (uint32 (start + uint32 need))) >>=! λ slice.
            some (ok (new_view h slice, s)))
          done in
      let (slice, sliced, last) =
        outcome-ok (steps (bytes_at bytes start (uint32 (start + uint32 need))))
          (λ (slice : List ℕ). some (ok (new_view h slice, s))) after in
      let (inside, ends, taken) =
        bytes_at-within bytes slice start need small short (steps-ok _ sliced) in
      let both = pair-injective (new_view h slice, s) (view, new) last in
      let same_snapshot : s ≡ new = ap (λ (p : T × Snapshot). p.1) both in
      let same_view : new_view h slice ≡ view = ap (λ (p : T × Snapshot). p.0) both in
      let got : get_key cfg new key
          ≡ some (ok (new_view h (take (handle_length cfg.spec h) (drop start bytes)))) =
        get_key-stored cfg hash_key new_view key old new a bytes holes start h hashes views v few
          (subst (IsSlot a.header) (sym at_index) slot_there) (sym at_index) named
          (subst (λ (n : ℕ). start + n ≤ length bytes) (sym long) inside)
          (subst (λ (n : ℕ). start + n < 2 ^ 32) (sym long) ends)
          (steps-ok _ kept ∙ ap (λ (t : Snapshot). some t) same_snapshot) in
      let shown : new_view h slice ≡ new_view h value = ap (new_view h) (taken ∙ holds) in
      (
        sym same_view ∙ shown,
        got
            ∙ ap (λ (n : ℕ). some (ok (new_view h (take n (drop start bytes))))) long
            ∙ ap (λ (b : List ℕ). some (ok (new_view h b))) (sym taken)
            ∙ ap (λ (t : T). some (ok t)) same_view,
      )

-- The bytes of an entry that is put behind others, or over them.
length-take : (n : ℕ) (xs : List ℕ) → n ≤ length xs → length (take n xs) ≡ n
length-take zero xs h = refl
length-take (suc n) [] h = absurd (omega arith)
length-take (suc n) (x ∷ xs) h = ap suc (length-take n xs (omega arith))

overwritten_lem :
    (bytes value : List ℕ) (start : ℕ) (rest : List ℕ)
    → start ≤ length bytes
    → take (length value) (drop start (take start bytes ++ (value ++ rest))) ≡ value
overwritten_lem bytes value start rest h =
    let size = length-take start bytes h in
    ap (λ (n : ℕ). take (length value) (drop n (take start bytes ++ (value ++ rest)))) (sym size)
    ∙ ap (take (length value)) (drop-append (take start bytes) (value ++ rest))
    ∙ take-append value rest

overwrite-holds :
    (bytes value out : List ℕ) (start : ℕ)
    → start < 2 ^ 32
    → length value < 2 ^ 32
    → overwrite bytes start (uint32 (start + uint32 (length value))) value ≡ some out
    → take (length value) (drop start out) ≡ value
overwrite-holds bytes value out start small short h =
    let end = uint32 (start + uint32 (length value)) in
    let (room, there, made) =
      bind-some (bytes_at bytes start end)
        (λ (room : List ℕ). some (take start bytes ++ (value ++ drop end bytes))) h in
    let (inside, ends, taken) = bytes_at-within bytes room start (length value) small short there in
    subst (λ (b : List ℕ). take (length value) (drop start b) ≡ value)
      (some-injective (take start bytes ++ (value ++ drop end bytes)) out made)
      (overwritten_lem bytes value start (drop end bytes) (omega (arith, inside)))

-- Every hole begins at an offset of 32 bits.
unfoldable pub AreLow : List Hole → Type 0
AreLow [] = Unit
AreLow (hl ∷ rest) = (hl.offset < 2 ^ 32) × AreLow rest

choice :
    (b : Bool) (x y : FirstFit) (found : ℕ × Hole)
    → (if b then x else y) ≡ some found
    → (x ≡ some found) ⊎ (y ≡ some found)
choice true x y found h = inl h
choice false x y found h = inr h

found-injective : (a b : ℕ × Hole) → ◌≡◌ {A = FirstFit} (some a) (some b) → a ≡ b
found-injective a b h = cc

later-some :
    (o : FirstFit) (found : ℕ × Hole)
    → later o ≡ some found
    → (next : ℕ × Hole) × (o ≡ some next) × (next.1 ≡ found.1)
later-some none found h = cc
later-some (some next) found h =
    (next, refl, ap (λ (x : ℕ × Hole). x.1) (found-injective (suc next.0, next.1) found h))

first_fit-low :
    (need : ℕ) (holes : List Hole) (found : ℕ × Hole)
    → AreLow holes
    → first_fit need holes ≡ some found
    → (found.1).offset < 2 ^ 32
unfolding first_fit AreLow
first_fit-low need [] found low e = cc
first_fit-low need (hl ∷ rest) found (here, below) e =
    elim (choice (ltb hl.length need) (later (first_fit need rest)) (some (0, hl)) found e) [
      | inl further ↦
          let (next, there, same) = later-some (first_fit need rest) found further in
          subst (λ (x : Hole). x.offset < 2 ^ 32) same (first_fit-low need rest next below there)
      | inr at_once ↦
          subst (λ (x : ℕ × Hole). (x.1).offset < 2 ^ 32) (found-injective (0, hl) found at_once)
            here
    ]

module _ {K T : Type 0} (cfg : Config K T) (hash_key : K → ℕ) (new_view : Handle → List ℕ → T)
    (key : K) (old new : Snapshot) (a : Allocated) (value : List ℕ) (view : T)
    (hashes : cfg.hash_key ≡ some hash_key) (views : cfg.new_view ≡ some new_view)
    (plain : cfg.on_write ≡ none) (spec_valid : IsSpec cfg.spec) (v : IsValid old.entries)
    (few : (old.entries).length < 2 ^ 31) (slot_there : IsSlot a.header a.index)
    (in_table : a.index < 2 ^ 16) (fits : length value < 2 ^ cfg.spec)
    (fits_id : id_of cfg hash_key key < 2 ^ (48 - cfg.spec))
    (brief : length old.bytes < 2 ^ 32) where
  -- Set gave the view of the value, under a handle that carries the slot, the length and the ID, and
  -- Get of the key finds it.
  unfoldable Keeps : Type 0
  Keeps =
      (h : Handle) × (Handle.offset h ≡ a.index)
      × (handle_length cfg.spec h ≡ length value)
      × (Handle.id cfg.spec h ≡ id_of cfg hash_key key)
      × (view ≡ new_view h value)
      × (get_key cfg new key ≡ some (ok view))

  -- When Set has put an entry behind all bytes, Get finds the view that it gave.
  get_key-set_behind :
      set_behind cfg new_view old a (id_of cfg hash_key key) value ≡ some (ok (view, new)) → Keeps
  unfolding set_end written Keeps
  get_key-set_behind done =
      let need = length value in
      let id = id_of cfg hash_key key in
      let new_start = uint32 (length old.bytes) in
      let bytes = old.bytes ++ value in
      let (h, made, at_index, sized, named) =
        new_handle_lem cfg.spec a.index need id spec_valid in_table fits fits_id in
      let (room, placed) =
        else-ok (ltb max_data_offset (new_start + need)) data_exceeds_capacity _ done in
      let short : need < 2 ^ 32 = omega (arith, pow-le_two cfg.spec 32 spec_valid.at_most) in
      let after =
        outcome-known (new_handle cfg.spec a.index need id)
          (λ (h : Handle). written cfg.on_write h new_start value >>=! λ w.
            set_end cfg hash_key new_view key old new a new_start w.0 need view value
              (old.bytes ++ w.1) old.holes)
          made placed in
      let unchanged : written cfg.on_write h new_start value ≡ some (ok (h, value)) =
        rw plain refl in
      let ended =
        outcome-known (written cfg.on_write h new_start value)
          (λ (w : Handle × List ℕ).
            set_end cfg hash_key new_view key old new a new_start w.0 need view value
              (old.bytes ++ w.1) old.holes)
          unchanged after in
      let at_end : length old.bytes ≡ length old.bytes % 2 ^ 32 = omega arith in
      let holds : take need (drop new_start bytes) ≡ value =
        ap (λ (n : ℕ). take need (drop n bytes)) (sym at_end)
        ∙ ap (take need) (drop-append old.bytes value)
        ∙ take_all value in
      let (shown, found) =
        set_end-get_key cfg hash_key new_view key old new a new_start h need view value bytes
          old.holes hashes views v few slot_there at_index named sized (omega arith) short holds
          ended in
      (h, at_index, sized, named, shown, found)

  -- When Set has put an entry in a hole, Get finds the view that it gave.
  get_key-set_in_hole :
      (i : ℕ) (hl : Hole)
      → hl.offset < 2 ^ 32
      → set_in_hole cfg new_view old a (id_of cfg hash_key key) value i hl ≡ some (ok (view, new))
      → Keeps
  unfolding set_end written Keeps
  get_key-set_in_hole i hl low done =
      let need = length value in
      let id = id_of cfg hash_key key in
      let end = uint32 (hl.offset + uint32 need) in
      let short : need < 2 ^ 32 = omega (arith, pow-le_two cfg.spec 32 spec_valid.at_most) in
      let (h, made, at_index, sized, named) =
        new_handle_lem cfg.spec a.index need id spec_valid in_table fits fits_id in
      let finish = λ (holes : List Hole) (w : Handle × List ℕ) (bytes : List ℕ).
        set_end cfg hash_key new_view key old new a hl.offset w.0 need view value bytes
          (holes ++ remainder hl need) in
      let store = λ (holes : List Hole) (w : Handle × List ℕ).
        steps (overwrite old.bytes hl.offset end w.1) >>=! finish holes w in
      let write = λ (holes : List Hole) (h : Handle).
        written cfg.on_write h hl.offset value >>=! store holes in
      let (holes, removed, chosen) =
        outcome-ok (steps (remove_hole old.holes i))
          (λ (holes : List Hole). new_handle cfg.spec a.index need id >>=! write holes) done in
      let after = outcome-known (new_handle cfg.spec a.index need id) (write holes) made chosen in
      let unchanged : written cfg.on_write h hl.offset value ≡ some (ok (h, value)) =
        rw plain refl in
      let stored_at =
        outcome-known (written cfg.on_write h hl.offset value) (store holes) unchanged after in
      let (bytes, copied, ended) =
        outcome-ok (steps (overwrite old.bytes hl.offset end value)) (finish holes (h, value))
          stored_at in
      let holds = overwrite-holds old.bytes value bytes hl.offset low short (steps-ok _ copied) in
      let (shown, found) =
        set_end-get_key cfg hash_key new_view key old new a hl.offset h need view value bytes
          (holes ++ remainder hl need) hashes views v few slot_there at_index named sized low short
          holds ended in
      (h, at_index, sized, named, shown, found)

  -- Once Set has a counted slot, below 2 ^ 16, and runs without a hook on fewer than 2 ^ 31 well
  -- paged entries, fewer than 2 ^ 32 bytes and holes that begin below 2 ^ 32, with a value and an
  -- ID that fit: whether it puts the value in the first hole that is large enough or behind all
  -- bytes, it returns the view of exactly the value, under a handle that carries the slot, the
  -- length and the ID, and Get of the key in the snapshot that it stores gives this view.
  pub get_key-set_fit :
      AreLow old.holes
      → set_fit cfg new_view old a
          (id_of cfg hash_key key)
          value
          (first_fit (length value) old.holes)
        ≡ some (ok (view, new))
      → (h : Handle) × (Handle.offset h ≡ a.index)
        × (handle_length cfg.spec h ≡ length value)
        × (Handle.id cfg.spec h ≡ id_of cfg hash_key key)
        × (view ≡ new_view h value)
        × (get_key cfg new key ≡ some (ok view))
  unfolding Keeps
  get_key-set_fit low done = elim (Option-cases (first_fit (length value) old.holes)) [
    | inl none_fits ↦ get_key-set_behind (
        subst
          (λ (f : FirstFit).
            set_fit cfg new_view old a (id_of cfg hash_key key) value f ≡ some (ok (view, new)))
          none_fits done)
    | inr (found, e) ↦
        get_key-set_in_hole found.0 found.1 (first_fit-low (length value) old.holes found low e) (
          subst
            (λ (f : FirstFit).
              set_fit cfg new_view old a (id_of cfg hash_key key) value f ≡ some (ok (view, new)))
            e done)
  ]
