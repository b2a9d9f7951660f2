-- ===== src/Handle/Masks.antt =====
-- The masks and shifts of core/bits/handle.go as arithmetic, for specs of 1 to 32 length bits.
use native.Mathlib.Nat.{one-le-pow}
use go_anansi.Prelude.{
  ℕ, zero, suc, ◌+◌, ◌-◌, ◌*◌, ◌/◌, ◌%◌, ◌^◌, ◌≤◌, ◌<◌, ◌≡◌, sym, ◌∙◌, ap, arith,
}
use go_anansi.Prelude.Word.{shl, bit_and-ones, pow_add, pow-le_two}
use go_anansi.Handle.{HandleSpec, Handle, bit_space, ones, id_shift, offset, int32}
use go_anansi.Handle.{length, id, max_length, max_id}

pub record IsSpec (s : HandleSpec) : Type 0 where
  pub at_least_one : 1 ≤ s
  pub at_most : s ≤ 32

pub ones_lem : (k : ℕ) → k < 64 → ones k ≡ 2 ^ k - 1
unfolding ones
ones_lem k h = omega (arith, pow-le_two k 63 (omega arith), one-le-pow k 2)

pub bit_space_lem : (s : HandleSpec) → s ≤ 48 → bit_space s ≡ 48 - s
unfolding bit_space
bit_space_lem s h = omega arith

pub id_shift_lem : (s : HandleSpec) → s ≤ 48 → id_shift s ≡ 16 + s
unfolding id_shift
id_shift_lem s h = omega arith

-- 2 ^ (16 + s) and 2 ^ (48 - s) make 2 ^ 64.
pub pow_space : (s : ℕ) → s ≤ 48 → 2 ^ (48 - s) * 2 ^ (16 + s) ≡ 2 ^ 64
pow_space s h = sym (pow_add (48 - s) (16 + s)) ∙ ap (λ (k : ℕ). 2 ^ k) {y = 64} (omega arith)

pred-mul : (a b : ℕ) → 1 ≤ a → (a - 1) * b + b ≡ a * b
pred-mul zero b h = absurd (omega arith)
pred-mul (suc a) b h = let e : suc a - 1 ≡ a = omega arith in rw e (omega arith)

-- The complement of the ID mask keeps the bits below the ID.
pub id_mask_lem :
    (s : HandleSpec)
    → IsSpec s
    → 2 ^ 64 - 1 - shl (ones (bit_space s)) (id_shift s) ≡ 2 ^ (16 + s) - 1
id_mask_lem s v =
    rw
      (bit_space_lem s (omega arith), id_shift_lem s (omega arith), ones_lem (48 - s) (omega arith))
      (omega (
        arith,
        pow-le_two (16 + s) 64 (omega arith),
        one-le-pow (16 + s) 2,
        pow_space s (omega arith),
        pred-mul (2 ^ (48 - s)) (2 ^ (16 + s)) (one-le-pow (48 - s) 2 (omega arith)),
      ))

-- What the accessors compute, as arithmetic.
pub offset_lem : (h : Handle) → offset h ≡ h % 2 ^ 16
unfolding offset
offset_lem h = bit_and-ones 16 h

pub length_lem : (s : HandleSpec) (h : Handle) → IsSpec s → length s h ≡ int32 (h / 2 ^ 16 % 2 ^ s)
unfolding length
length_lem s h v = rw (ones_lem s (omega arith), bit_and-ones s (h / 2 ^ 16))

pub id_lem : (s : HandleSpec) (h : Handle) → IsSpec s → id s h ≡ h / 2 ^ (16 + s) % 2 ^ (48 - s)
unfolding id
id_lem s h v = rw (
  bit_space_lem s (omega arith),
  id_shift_lem s (omega arith),
  ones_lem (48 - s) (omega arith),
  bit_and-ones (48 - s) (h / 2 ^ (16 + s)),
)

pub max_length_lem : (s : HandleSpec) → IsSpec s → max_length s ≡ 2 ^ s - 1
unfolding max_length
max_length_lem s v = ground (arith, ones_lem s)

pub max_id_lem : (s : HandleSpec) → IsSpec s → max_id s ≡ 2 ^ (48 - s) - 1
unfolding max_id
max_id_lem s v = ground (arith, ones_lem (48 - s), bit_space_lem s)

-- The handle that holds these three fields.
abbrev pub pack : HandleSpec → ℕ → ℕ → ℕ → Handle
pack s o l i = (o + l * 2 ^ 16) + i * 2 ^ (16 + s)
