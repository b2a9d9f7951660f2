-- ===== src/Registry/Pages.antt =====
-- core/bits/registry.go, persistentEntries and persistentSlotToEntry: arrays in pages of 256, of
-- which an update copies one. An index out of range panics: `none`.
pub mod Flat
pub mod Updates
pub mod Pop
pub mod Laws
pub mod Refine
use Prim.Native.Nat.{bit_and}
use go_anansi.Prelude.{
  ℕ, zero, suc, ◌+◌, ◌-◌, Bool, true, false, ◌&&◌, Option, none, some, List, [], ◌∷◌, ◌++◌, length,
  get_elem?, take, ltb, leb, ◌==◌, if◌then◌else◌,
}
use go_anansi.Prelude.Int.{ℤ, negsuc}
use go_anansi.Prelude.Word.{shr}

abbrev pub page_size : ℕ
page_size = 256

-- `i >> pageShift` and `i & pageMask`
abbrev pub page_index : ℕ → ℕ
page_index i = shr i 8

abbrev pub page_offset : ℕ → ℕ
page_offset i = bit_and i 0xFF

infixl 5 ◌>>=?◌
abbrev pub ◌>>=?◌ {ℓ κ} : {A : Type ℓ} {B : Type κ} → Option A → (A → Option B) → Option B
none >>=? step = none
some a >>=? step = step a

module _ {ℓ} {A : Type ℓ} where
  -- `s[i] = x` on a slice
  abbrev pub set_elem? : List A → ℕ → A → Option (List A)
  set_elem? [] i x = none
  set_elem? (y ∷ ys) zero x = some (x ∷ ys)
  set_elem? (y ∷ ys) (suc i) x = set_elem? ys i x >>=? λ zs. some (y ∷ zs)

pub record Pages {ℓ} (A : Type ℓ) : Type ℓ where
  pub pages : List (List A)
  pub length : ℕ

module _ {ℓ} {A : Type ℓ} where
  unfoldable pub get : Pages A → ℕ → Option A
  get pe i = get_elem? (pe.pages) (page_index i) >>=? λ page. get_elem? page (page_offset i)

  unfoldable pub set : Pages A → ℕ → A → Option (Pages A)
  set pe i h = get_elem? (pe.pages) (page_index i) >>=? λ target.
      set_elem? target (page_offset i) h >>=? λ new_target.
      set_elem? (pe.pages) (page_index i) new_target >>=? λ new_pages.
      some record { pages = new_pages; length = pe.length }

  abbrev pub add_to_page : List A → ℕ → A → Option (List A)
  add_to_page target off h =
      if ltb off (length target) then set_elem? target off h else some (target ++ (h ∷ []))

  unfoldable pub append : Pages A → A → Option (Pages A)
  append pe h =
      if ltb (page_index (pe.length)) (length (pe.pages))
      then (get_elem? (pe.pages) (page_index (pe.length)) >>=? λ target.
          add_to_page target (page_offset (pe.length)) h >>=? λ new_target.
          set_elem? (pe.pages) (page_index (pe.length)) new_target >>=? λ new_pages.
          some record { pages = new_pages; length = pe.length + 1 })
      else (some record { pages = pe.pages ++ ((h ∷ []) ∷ []); length = pe.length + 1 })

  -- `page[:off]`, which panics past the capacity of the page. The capacity is taken for the length,
  -- which is not below `off` on pages that hold `length` elements.
  abbrev pub slice_to : List A → ℕ → Option (List A)
  slice_to page off = if ltb (length page) off then none else some (take off page)

  abbrev pub shrink : List (List A) → ℕ → List A → Option (List (List A))
  shrink pages p target =
      if (length target == 0) && ltb 1 (length pages)
      then some (take p pages)
      else set_elem? pages p target

  unfoldable pub pop : Pages A → Option (Pages A)
  pop pe =
      let new_len = pe.length - 1 in
      if pe.length == 0
      then some pe
      else (get_elem? (pe.pages) (page_index new_len) >>=? λ page.
          slice_to page (page_offset new_len) >>=? λ target.
          shrink (pe.pages) (page_index new_len) target >>=? λ new_pages.
          some record { pages = new_pages; length = new_len })

-- the positions of slots, -1 where there is none
abbrev pub nowhere : ℤ
nowhere = negsuc 0

unfoldable pub slot_get : Pages ℤ → ℕ → Option ℤ
slot_get ps i = if leb (ps.length) i then some nowhere else get ps i

abbrev pub replicate : ℕ → List ℤ
replicate zero = []
replicate (suc n) = nowhere ∷ replicate n

-- the loop that adds pages until page `p` is there: `missing` counts down to it
unfoldable pub with_pages : ℕ → List (List ℤ) → List (List ℤ)
with_pages zero pages = pages
with_pages (suc missing) pages = with_pages missing (pages ++ (replicate page_size ∷ []))

unfoldable pub slot_set : Pages ℤ → ℕ → ℤ → Option (Pages ℤ)
slot_set ps i val =
    let p = page_index i in
    let grown = with_pages (p + 1 - length (ps.pages)) (ps.pages) in
    get_elem? grown p >>=? λ target. set_elem? target (page_offset i) val >>=? λ new_target.
    set_elem? grown p new_target >>=? λ new_pages.
    some record { pages = new_pages; length = if ltb (ps.length) (i + 1) then i + 1 else ps.length }
