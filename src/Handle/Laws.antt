-- ===== src/Handle/Laws.antt =====
-- The contract of core/bits/handle.go: what is packed is read back, each setter changes one field,
-- and which arguments are refused.
use native.Mathlib.Nat.{mod-eq_of_lt, one-le-pow, mod-lt}
use go_anansi.Prelude.{
  ℕ, ◌+◌, ◌-◌, ◌*◌, ◌/◌, ◌%◌, ◌^◌, ◌≤◌, ◌<◌, ◌≡◌, ◌↔◌, refl, sym, ◌∙◌, ap, arith,
}
use go_anansi.Prelude.Int.{ℤ, pos, negsuc, ◌+ℤ◌}
use go_anansi.Prelude.Word.{pow_add, and_not-low16, disjoint-bit_or, bit_and-ones}
use go_anansi.Prelude.Result.{ok, ◌>>=◌}
use go_anansi.Handle.{HandleSpec, Handle, handle, set_id, shift, offset, length, id, int32}
use go_anansi.Handle.{max_offset}
use go_anansi.Handle.Masks.{IsSpec, offset_lem, length_lem, max_length_lem, pack}
use go_anansi.Handle.Fields.{handle_lem, set_id_lem, pack-offset, pack-length, pack-id}
use go_anansi.Handle.Fields.{low_fields, id_above_offset}

set_id_lem_at :
    (s o l i : ℕ)
    → IsSpec s
    → o < 2 ^ 16
    → l < 2 ^ s
    → i < 2 ^ (48 - s)
    → set_id s (o % 2 ^ 16 + l * 2 ^ 16) i ≡ ok (pack s o l i)
set_id_lem_at s o l i v ho hl hi =
    let fits : o + l * 2 ^ 16 < 2 ^ (16 + s) = omega (arith, pow_add 16 s) in
    rw (mod-eq_of_lt ho, set_id_lem s _ i v hi, mod-eq_of_lt fits)

-- For every spec of 1 to 32 length bits and an offset, a length and an ID within their fields,
-- Handle and then SetID succeed, and Offset and ID read the offset and the ID back, and Length the
-- length as an int32.
pub handle-set_id :
    (s : HandleSpec) (o l i : ℕ)
    → IsSpec s
    → o < 2 ^ 16
    → l < 2 ^ s
    → i < 2 ^ (48 - s)
    → (h : Handle) × ((handle s (pos o) (pos l) >>= λ g. set_id s g i) ≡ ok h)
      × (offset h ≡ o)
      × (length s h ≡ int32 l)
      × (id s h ≡ i)
handle-set_id s o l i v ho hl hi = (
  pack s o l i,
  rw (handle_lem s o l v (omega arith) hl) (set_id_lem_at s o l i v ho hl hi),
  pack-offset s o l i v ho hl,
  pack-length s o l i v ho hl,
  pack-id s o l i v ho hl hi,
)

-- An offset of exactly 65536 is accepted with any length that fits, and the handle reads back
-- offset 0.
pub handle-max_offset :
    (s : HandleSpec) (l : ℕ)
    → IsSpec s
    → l < 2 ^ s
    → (h : Handle) × (handle s (pos max_offset) (pos l) ≡ ok h) × (offset h ≡ 0)
handle-max_offset s l v hl = (
  l * 2 ^ 16,
  handle_lem s (2 ^ 16) l v (omega arith) hl ∙ ap ok (omega arith),
  rw offset_lem (omega arith),
)

-- Handle succeeds exactly when the offset is from 0 to 65536 and the length is from 0 to 2^bits -
-- 1.
pub handle_accepts :
    (s : HandleSpec) (o l : ℤ)
    → IsSpec s
    → ((h : Handle) × (handle s o l ≡ ok h))
      ↔ ((a b : ℕ) × (o ≡ pos a) × (l ≡ pos b) × (a ≤ max_offset) × (b < 2 ^ s))
unfolding handle
handle_accepts s (pos a) (pos b) v = (
  λ (h, e). (a, b, refl, refl, ground arith, ground (arith, max_length_lem s v, one-le-pow s 2)),
  λ (c, d, p, q, r, t). (_, handle_lem s a b v (ground arith) (ground arith)),
)
handle_accepts s (pos a) (negsuc b) v = (λ (h, e). ground arith, λ (c, d, p, q, r, t). cc)
handle_accepts s (negsuc a) l v = (λ (h, e). ground arith, λ (c, d, p, q, r, t). cc)

-- SetID with an ID that fits succeeds on any handle, replaces the ID that was there, and leaves the
-- offset and the length alone.
pub set_id_keeps :
    (s : HandleSpec) (h i : ℕ)
    → IsSpec s
    → i < 2 ^ (48 - s)
    → (g : Handle) × (set_id s h i ≡ ok g)
      × (offset g ≡ offset h)
      × (length s g ≡ length s h)
      × (id s g ≡ i)
set_id_keeps s h i v hi =
    let o : ℕ = h % 2 ^ 16 in
    let l : ℕ = h / 2 ^ 16 % 2 ^ s in
    let ho : o < 2 ^ 16 = omega arith in
    let hl : l < 2 ^ s = mod-lt (h / 2 ^ 16) (one-le-pow s 2 (omega arith)) in
    (
      pack s o l i,
      rw (set_id_lem s h i v hi, low_fields s h),
      pack-offset s o l i v ho hl ∙ sym (offset_lem h),
      pack-length s o l i v ho hl ∙ sym (length_lem s h v),
      pack-id s o l i v ho hl hi,
    )

-- Shift on a 64-bit handle, by a delta that leads to an offset below 65536, succeeds, gives that
-- offset, and leaves the length and the ID alone.
pub shift_keeps :
    (s : HandleSpec) (h n : ℕ) (delta : ℤ)
    → IsSpec s
    → h < 2 ^ 64
    → pos (offset h) +ℤ delta ≡ pos n
    → n < 2 ^ 16
    → (g : Handle) × (shift s h delta ≡ ok g)
      × (offset g ≡ n)
      × (length s g ≡ length s h)
      × (id s g ≡ id s h)
unfolding shift
shift_keeps s h n delta v fits e hn =
    let g : ℕ = n + h / 2 ^ 16 * 2 ^ 16 in
    let same : g / 2 ^ 16 ≡ h / 2 ^ 16 = omega arith in
    (
      g,
      rw (e, shift)
          (ground
            (arith, and_not-low16 h fits, bit_and-ones 16 n, disjoint-bit_or 16 n (h / 2 ^ 16) hn)),
      rw offset_lem (omega arith),
      rw (length_lem s g v, length_lem s h v) (ap (λ (t : ℕ). int32 (t % 2 ^ s)) same),
      rw (id_above_offset s g v, id_above_offset s h v)
          (ap (λ (t : ℕ). t / 2 ^ s % 2 ^ (48 - s)) same),
    )

-- Under 32 length bits a length of 2^31 or more that fits 32 bits is accepted and reads back as a
-- negative number.
pub length-negative :
    (o l : ℕ)
    → o < 2 ^ 16
    → 2 ^ 31 ≤ l
    → l < 2 ^ 32
    → (h : Handle) × (n : ℕ) × (handle 32 (pos o) (pos l) ≡ ok h) × (length 32 h ≡ negsuc n)
length-negative o l ho lo hi =
    let v : IsSpec 32 = omega arith in
    let h : Handle = o % 2 ^ 16 + l * 2 ^ 16 in
    (h, 2 ^ 32 - l - 1, handle_lem 32 o l v (omega arith) hi, rw (length_lem 32 h v) (ground arith))
