-- ===== src/Registry/Snapshot/Laws.antt =====
-- core/bits/registry.go, Export and Import: what one registry exports another one imports.
use go_anansi.Prelude.{
  ℕ, zero, suc, ◌+◌, ◌*◌, ◌/◌, ◌^◌, ◌<◌, false, some, List, [], ◌∷◌, ◌++◌, length, get_elem?, take,
  drop, ltb, leb, ◌≡◌, refl, sym, ap, ◌∙◌, arith, take-append, length-append,
}
use mathlib.Core.Path.{subst}
use mathlib.Core.List.{append_assoc}
use go_anansi.Handle.{HandleSpec, Handle}
use go_anansi.Registry.Pages.{Pages, get}
use go_anansi.Registry.Header.{uint32}
use go_anansi.Registry.Pages.Laws.{IsValid, elements, get-elements}
use go_anansi.Registry.Pages.Flat.{get_elem_right}
use go_anansi.Registry.Pages.Refine.{length-elements}
use go_anansi.Registry.Snapshot.{Snapshot}
use go_anansi.Registry.Snapshot.Transfer.{
  slice_from, to_slice, write, put_le, get_le, put_entries, get_entries, magic, export, import,
  import_counted,
}

-- Every number is below a bound.
unfoldable pub IsBelow : ℕ → List ℕ → Type 0
IsBelow bound [] = Unit
IsBelow bound (x ∷ xs) = (x < bound) × IsBelow bound xs

pub drop-append : (xs ys : List ℕ) → drop (length xs) (xs ++ ys) ≡ ys
drop-append [] ys = refl
drop-append (x ∷ xs) ys = drop-append xs ys

-- toSlice reads the elements behind those it has read.
slice_from_lem :
    (pe : Pages Handle) (front behind : List Handle)
    → IsValid pe
    → elements pe ≡ front ++ behind
    → slice_from pe (length behind) (length front) ≡ some behind
unfolding slice_from
slice_from_lem pe front [] v e = refl
slice_from_lem pe front (h ∷ behind) v e =
    let in_range : length front < pe.length =
      omega (arith, length-elements pe v, ap length e, length-append front (h ∷ behind)) in
    let read : get pe (length front) ≡ some h =
      get-elements pe (length front) v in_range
      ∙ ap (λ (xs : List Handle). get_elem? xs (length front)) e
      ∙ ap (get_elem? (front ++ (h ∷ behind))) {x = length front} {y = length front + 0}
          (omega arith)
      ∙ get_elem_right front (h ∷ behind) 0 in
    let next : slice_from pe (length behind) (length (front ++ (h ∷ []))) ≡ some behind =
      slice_from_lem pe (front ++ (h ∷ [])) behind v
        (e ∙ sym (append_assoc front (h ∷ []) behind)) in
    let step : length front + 1 ≡ length (front ++ (h ∷ [])) =
      omega (arith, length-append front (h ∷ [])) in
    rw (read, step, next) refl

to_slice_lem : (pe : Pages Handle) → IsValid pe → to_slice pe ≡ some (elements pe)
to_slice_lem pe v =
    ap (λ (n : ℕ). slice_from pe n 0) (sym (length-elements pe v))
    ∙ slice_from_lem pe [] (elements pe) v refl

length-put_le : (k n : ℕ) → length (put_le k n) ≡ k
unfolding put_le
length-put_le zero n = refl
length-put_le (suc k) n = ap (λ (t : ℕ). suc t) (length-put_le k (n / 256))

below_div : (n p : ℕ) → n < 256 * p → n / 256 < p
below_div n p h = omega arith

pow_step : (k : ℕ) → 256 ^ suc k ≡ 256 * 256 ^ k
pow_step k = omega arith

get_le-put_le : (k n : ℕ) → n < 256 ^ k → get_le (put_le k n) ≡ n
unfolding put_le get_le
get_le-put_le zero n h = omega arith
get_le-put_le (suc k) n h =
    let rest : get_le (put_le k (n / 256)) ≡ n / 256 =
      get_le-put_le k (n / 256) (below_div n (256 ^ k) (subst (λ (t : ℕ). n < t) (pow_step k) h)) in
    omega (arith, rest)

take-put_le : (n : ℕ) (rest : List ℕ) → take 8 (put_le 8 n ++ rest) ≡ put_le 8 n
unfolding put_le
take-put_le n rest = refl

drop-put_le : (n : ℕ) (rest : List ℕ) → drop 8 (put_le 8 n ++ rest) ≡ rest
unfolding put_le
drop-put_le n rest = refl

get_entries-put_entries :
    (hs : List Handle) (rest : List ℕ)
    → IsBelow (2 ^ 64) hs
    → get_entries (length hs) (put_entries hs ++ rest) ≡ hs
unfolding IsBelow
get_entries-put_entries [] rest b = refl
get_entries-put_entries (h ∷ hs) rest (small, b) =
    let behind = put_entries hs ++ rest in
    let first : get_le (take 8 (put_le 8 h ++ behind)) ≡ h =
      ap get_le (take-put_le h behind) ∙ get_le-put_le 8 h small in
    let others : get_entries (length hs) (drop 8 (put_le 8 h ++ behind)) ≡ hs =
      ap (get_entries (length hs)) (drop-put_le h behind) ∙ get_entries-put_entries hs rest b in
    rw (append_assoc (put_le 8 h) (put_entries hs) rest, first, others) refl

length-put_entries : (hs : List Handle) → length (put_entries hs) ≡ length hs * 8
length-put_entries [] = refl
length-put_entries (h ∷ hs) =
    omega
      (arith, length-append (put_le 8 h) (put_entries hs), length-put_le 8 h, length-put_entries hs)

drop-put_entries :
    (hs : List Handle) (rest : List ℕ) → drop (length hs * 8) (put_entries hs ++ rest) ≡ rest
drop-put_entries hs rest =
    ap (λ (n : ℕ). drop n (put_entries hs ++ rest)) (sym (length-put_entries hs))
    ∙ drop-append (put_entries hs) rest

-- What Import reads behind the counts, of entries and bytes that were exported.
import_counted_lem :
    (spec : HandleSpec) (old : Snapshot) (hs : List Handle) (bytes rest : List ℕ)
    → IsBelow (2 ^ 64) hs
    → import_counted spec old (length hs) (length bytes) (put_entries hs ++ (bytes ++ rest))
      ≡ write spec old hs bytes
unfolding import_counted
import_counted_lem spec old hs bytes rest b =
    let whole : length (put_entries hs ++ (bytes ++ rest))
        ≡ length hs * 8 + length bytes + length rest =
      omega (
        arith,
        length-append (put_entries hs) (bytes ++ rest),
        length-put_entries hs,
        length-append bytes rest,
      ) in
    let enough : ltb (length (put_entries hs ++ (bytes ++ rest))) (length hs * 8 + length bytes)
        ≡ false =
      ground (arith, whole) in
    rw
      (
        enough,
        get_entries-put_entries hs (bytes ++ rest) b,
        drop-put_entries hs (bytes ++ rest),
        take-append bytes rest,
      )
      refl

pub take_all : (xs : List ℕ) → take (length xs) xs ≡ xs
take_all [] = refl
take_all (x ∷ xs) = ap (λ (t : List ℕ). x ∷ t) (take_all xs)

-- what Export writes of a registry whose counts fit 32 bits
exported : List Handle → List ℕ → List ℕ
exported hs bytes =
    magic ++ (put_le 4 (length hs) ++ (put_le 4 (length bytes) ++ (put_entries hs ++ bytes)))

export_lem :
    (s : Snapshot)
    → IsValid s.entries
    → (s.entries).length < 2 ^ 32
    → length s.bytes < 2 ^ 32
    → export s ≡ some (exported (elements s.entries) s.bytes)
unfolding export exported
export_lem s v few short =
    let fits : uint32 (length s.bytes) ≡ length s.bytes = omega arith in
    let room : leb (2 ^ 32) (length (elements s.entries)) ≡ false =
      ground (arith, length-elements s.entries v) in
    rw (to_slice_lem s.entries v, room, fits, take_all s.bytes) refl

import_lem :
    (spec : HandleSpec) (old : Snapshot) (hs : List Handle) (bytes rest : List ℕ)
    → IsBelow (2 ^ 64) hs
    → length hs < 2 ^ 32
    → length bytes < 2 ^ 32
    → import spec old (exported hs bytes ++ rest) ≡ write spec old hs bytes
unfolding import exported put_le
import_lem spec old hs bytes rest b few short =
    let behind = (put_entries hs ++ bytes) ++ rest in
    let enough : ltb (length (exported hs bytes ++ rest)) 12 ≡ false = ground arith in
    let read_count : get_le (put_le 4 (length hs)) ≡ length hs =
      get_le-put_le 4 (length hs) (omega arith) in
    let read_length : get_le (put_le 4 (length bytes)) ≡ length bytes =
      get_le-put_le 4 (length bytes) (omega arith) in
    let counted : import_counted spec old (get_le (put_le 4 (length hs)))
          (get_le (put_le 4 (length bytes))) behind
        ≡ write spec old hs bytes =
      ap (λ (n : ℕ). import_counted spec old n (get_le (put_le 4 (length bytes))) behind) read_count
      ∙ ap (λ (n : ℕ). import_counted spec old (length hs) n behind) read_length
      ∙ ap (import_counted spec old (length hs) (length bytes))
          (append_assoc (put_entries hs) bytes rest)
      ∙ import_counted_lem spec old hs bytes rest b in
    rw enough counted

-- Where the entries of a registry are well paged and 64-bit words, and there are fewer than 2 ^ 32
-- entries and bytes, Export gives bytes that Import reads as Write of these entries and bytes, into
-- any registry and whatever bytes follow.
pub import-export :
    (spec : HandleSpec) (old s : Snapshot)
    → IsValid s.entries
    → IsBelow (2 ^ 64) (elements s.entries)
    → (s.entries).length < 2 ^ 32
    → length s.bytes < 2 ^ 32
    → (out : List ℕ) × (export s ≡ some out)
      × ((rest : List ℕ)
          → import spec old (out ++ rest) ≡ write spec old (elements s.entries) s.bytes)
import-export spec old s v words few short =
    let few_elements : length (elements s.entries) < 2 ^ 32 =
      omega (arith, length-elements s.entries v) in
    (
      exported (elements s.entries) s.bytes,
      export_lem s v few short,
      λ rest. import_lem spec old (elements s.entries) s.bytes rest words few_elements short,
    )
