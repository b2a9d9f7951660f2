-- ===== src/Handle/Fields.antt =====
-- What the operations of core/bits/handle.go do to the three fields of a handle.
use native.Mathlib.Nat.{mod-eq_of_lt, one-le-pow, mod-lt, mul-le-mul_right}
use native.Mathlib.Nat.{mod-add-div', div-div-eq-div-mul}
use go_anansi.Prelude.{ℕ, ◌+◌, ◌-◌, ◌*◌, ◌/◌, ◌%◌, ◌^◌, ◌≤◌, ◌<◌, ◌≡◌, ap, ◌∙◌, arith}
use go_anansi.Prelude.Int.{pos}
use go_anansi.Prelude.Word.{bit_and-ones, bit_or-disjoint, pow_add, pow-le_two}
use go_anansi.Prelude.Word.{div-pow_split, mod-pow_split}
use go_anansi.Prelude.Result.{ok}
use go_anansi.Handle.{handle, set_id, offset, length, id, int32}
use go_anansi.Handle.Masks.{
  IsSpec, ones_lem, id_mask_lem, id_shift_lem, offset_lem, length_lem, id_lem, max_length_lem,
  max_id_lem, pow_space, pack,
}

-- i * 2 ^ (16 + s), split at bit 16
id_part : (s i : ℕ) → i * 2 ^ (16 + s) ≡ i * 2 ^ s * 2 ^ 16
id_part s i = omega (arith, ap (λ (t : ℕ). i * t) (pow_add 16 s))

-- the three fields of a packed handle
module _ (s o l i : ℕ) (v : IsSpec s) (ho : o < 2 ^ 16) (hl : l < 2 ^ s) where
  pub pack-offset : offset (pack s o l i) ≡ o
  pack-offset = rw (offset_lem, id_part s i) (omega arith)

  pack-div_offset : pack s o l i / 2 ^ 16 ≡ l + i * 2 ^ s
  pack-div_offset = rw (id_part s i) (omega arith)

  pub pack-length : length s (pack s o l i) ≡ int32 l
  pack-length =
      length_lem s (pack s o l i) v
      ∙ ap int32 (ap (λ (t : ℕ). t % 2 ^ s) pack-div_offset ∙ mod-pow_split s l i hl)

  pack_below : o + l * 2 ^ 16 < 2 ^ (16 + s)
  pack_below = omega (arith, pow_add 16 s)

  pub pack-id : i < 2 ^ (48 - s) → id s (pack s o l i) ≡ i
  pack-id hi =
      id_lem s (pack s o l i) v
      ∙ ap (λ (t : ℕ). t % 2 ^ (48 - s)) (div-pow_split (16 + s) _ i pack_below)
      ∙ mod-eq_of_lt hi

pub handle_lem :
    (s o l : ℕ)
    → IsSpec s
    → o ≤ 2 ^ 16
    → l < 2 ^ s
    → handle s (pos o) (pos l) ≡ ok (o % 2 ^ 16 + l * 2 ^ 16)
unfolding handle
handle_lem s o l v ho hl = ground (
  arith,
  max_length_lem s v,
  ones_lem s (omega arith),
  bit_and-ones s l,
  bit_and-ones 16 o,
  mod-eq_of_lt hl,
  bit_or-disjoint 16 (o % 2 ^ 16) l (omega arith),
  pow-le_two s 32 (omega arith),
)

pub set_id_lem :
    (s h i : ℕ)
    → IsSpec s
    → i < 2 ^ (48 - s)
    → set_id s h i ≡ ok (h % 2 ^ (16 + s) + i * 2 ^ (16 + s))
unfolding set_id
set_id_lem s h i v hi = ground (
  arith,
  max_id_lem s v,
  id_mask_lem s v,
  id_shift_lem s (omega arith),
  bit_and-ones (16 + s) h,
  bit_or-disjoint (16 + s) (h % 2 ^ (16 + s)) i (mod-lt _ (one-le-pow (16 + s) 2 (omega arith))),
  pow_space s (omega arith),
  mul-le-mul_right (2 ^ (16 + s)) hi,
)

-- A handle below its ID is its offset and its length.
pub low_fields : (s h : ℕ) → h % 2 ^ (16 + s) ≡ h % 2 ^ 16 + h / 2 ^ 16 % 2 ^ s * 2 ^ 16
low_fields s h =
    let q : ℕ = h / 2 ^ 16 in
    let low : ℕ = h % 2 ^ 16 + q % 2 ^ s * 2 ^ 16 in
    let whole : h ≡ low + q / 2 ^ s * 2 ^ (16 + s) =
      omega (arith, id_part s (q / 2 ^ s), mod-add-div' q (2 ^ s)) in
    let fits : low < 2 ^ (16 + s) =
      omega (arith, pow_add 16 s, mod-lt q {m = 2 ^ s} (one-le-pow s 2 (omega arith))) in
    ap (λ (t : ℕ). t % 2 ^ (16 + s)) whole ∙ mod-pow_split (16 + s) low (q / 2 ^ s) fits

-- The ID, read through the bits above the offset.
pub id_above_offset : (s h : ℕ) → IsSpec s → id s h ≡ h / 2 ^ 16 / 2 ^ s % 2 ^ (48 - s)
id_above_offset s h v = rw (id_lem s h v, pow_add 16 s, div-div-eq-div-mul)
