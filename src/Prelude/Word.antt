-- ===== src/Prelude/Word.antt =====
-- 64-bit words as numbers below 2 ^ 64, and the arithmetic that stands behind `&`, `|` and `&^`.
use Prim.Native.Nat.{ℕ, zero, suc, ◌+◌, ◌-◌, ◌*◌, ◌/◌, ◌%◌, ◌^◌, ◌≤◌, ◌<◌, min, max}
use Prim.Native.Nat.{bit_and, bit_or, bitwise, digits, bit_and-bitwise, bit_or-bitwise}
use mathlib.Core.Path.{◌≡◌, refl, ap, ◌∙◌}
use native.Mathlib.Omega.{arith}
use native.Mathlib.Nat.{add-mul-div_right, add-mul-mod_self_right, div-eq_of_lt, mod-eq_of_lt}
use native.Mathlib.Nat.{le_refl, add-zero, add-suc, pow-zero, pow-suc, one-le-pow, pow-le-pow_right}

-- `x << k` and `x >> k` on a uint64; Go gives 0 where k is 64 or more, and so does this.
abbrev pub shl : ℕ → ℕ → ℕ
shl x k = (x * 2 ^ k) % 2 ^ 64

abbrev pub shr : ℕ → ℕ → ℕ
shr x k = x / 2 ^ k

-- `a &^ m`: the complement of a word `m` is 2 ^ 64 - 1 - m.
abbrev pub and_not : ℕ → ℕ → ℕ
and_not a m = bit_and a (2 ^ 64 - 1 - m)

-- The lowest digit of a bitwise operation with the fuel dropped.
module _ (rest : ℕ → ℕ) (op : ℕ → ℕ → ℕ) where
  digits-fuel_irrel : (m n a b : ℕ) → a ≤ m → a ≤ n → digits rest op m a b ≡ digits rest op n a b
  digits-fuel_irrel zero zero a b p q = refl
  digits-fuel_irrel (suc m) zero zero b p q = refl
  digits-fuel_irrel (suc m) zero (suc a) b p q = absurd (omega arith)
  digits-fuel_irrel zero (suc n) zero b p q = refl
  digits-fuel_irrel zero (suc n) (suc a) b p q = absurd (omega arith)
  digits-fuel_irrel (suc m) (suc n) zero b p q = refl
  digits-fuel_irrel (suc m) (suc n) (suc a) b p q =
      rw (digits-fuel_irrel m n (suc a / 2) (b / 2) (omega arith) (omega arith))

  bitwise_low :
      (a b : ℕ)
      → bitwise rest op (suc a) b ≡ bitwise rest op (suc a / 2) (b / 2) * 2 + op (suc a % 2) (b % 2)
  bitwise_low a b =
      omega (arith, digits-fuel_irrel a (suc a / 2) (suc a / 2) (b / 2) (omega arith) (le_refl _))

bit_or_low : (a b : ℕ) → bit_or a b ≡ bit_or (a / 2) (b / 2) * 2 + max (a % 2) (b % 2)
bit_or_low zero b = simp bit_or-bitwise (omega arith)
bit_or_low (suc a) b = simp bit_or-bitwise (bitwise_low (λ y. y) max a b)

bit_and_low : (a b : ℕ) → bit_and a b ≡ bit_and (a / 2) (b / 2) * 2 + min (a % 2) (b % 2)
bit_and_low zero b = simp bit_and-bitwise (omega arith)
bit_and_low (suc a) b = simp bit_and-bitwise (bitwise_low (λ y. 0) min a b)

bit_or-zero_below : (n a : ℕ) → a ≤ n → bit_or a 0 ≡ a
bit_or-zero_below n zero h = refl
bit_or-zero_below zero (suc a) h = absurd (omega arith)
bit_or-zero_below (suc n) (suc a) h =
    omega (arith, bit_or_low (suc a) 0, bit_or-zero_below n (suc a / 2) (omega arith))

zero-bit_or : (b : ℕ) → bit_or 0 b ≡ b
zero-bit_or b = bit_or-bitwise 0 b

bit_and-zero_below : (n a : ℕ) → a ≤ n → bit_and a 0 ≡ 0
bit_and-zero_below n zero h = refl
bit_and-zero_below zero (suc a) h = absurd (omega arith)
bit_and-zero_below (suc n) (suc a) h =
    omega (arith, bit_and_low (suc a) 0, bit_and-zero_below n (suc a / 2) (omega arith))

mul-pow_suc : (q k : ℕ) → q * 2 ^ suc k ≡ 2 * (q * 2 ^ k)
mul-pow_suc q k = omega (arith, ap (λ (t : ℕ). q * t) (pow-suc 2 k))

-- `r | q << k` is a sum where `r` fits below bit `k`.
pub bit_or-disjoint : (k r q : ℕ) → r < 2 ^ k → bit_or r (q * 2 ^ k) ≡ r + q * 2 ^ k
bit_or-disjoint zero zero q fits = omega (arith, zero-bit_or (q * 2 ^ 0))
bit_or-disjoint zero (suc r) q fits = absurd (omega arith)
bit_or-disjoint (suc k) r q fits = ground (
  arith,
  bit_or_low r (q * 2 ^ suc k),
  mul-pow_suc q k,
  pow-suc 2 k,
  bit_or-disjoint k (r / 2) q (omega (arith, pow-suc 2 k)),
)

bit_and-ones_split : (k r q : ℕ) → r < 2 ^ k → bit_and (r + q * 2 ^ k) (2 ^ k - 1) ≡ r
bit_and-ones_split zero r q fits =
    rw (bit_and-zero_below (r + q * 2 ^ 0) _ (le_refl _)) (omega arith)
bit_and-ones_split (suc k) r q fits = ground (
  arith,
  bit_and_low (r + q * 2 ^ suc k) (2 ^ suc k - 1),
  mul-pow_suc q k,
  pow-suc 2 k,
  bit_and-ones_split k (r / 2) q (omega (arith, pow-suc 2 k)),
)

-- Masking by k low ones is the remainder.
pub bit_and-ones : (k a : ℕ) → bit_and a (2 ^ k - 1) ≡ a % 2 ^ k
bit_and-ones k a = ground (arith, one-le-pow k 2, bit_and-ones_split k (a % 2 ^ k) (a / 2 ^ k))

pub pow-le_two : (k n : ℕ) → k ≤ n → 2 ^ k ≤ 2 ^ n
pow-le_two k n h = pow-le-pow_right {n = 2} (omega arith) h

pub pow_add : (a b : ℕ) → 2 ^ (a + b) ≡ 2 ^ a * 2 ^ b
pow_add a zero = simp (add-zero, pow-zero) (omega arith)
pow_add a (suc b) = rw add-suc (
    omega
      (arith, pow-suc 2 (a + b), pow-suc 2 b, pow_add a b, ap (λ (t : ℕ). 2 ^ a * t) (pow-suc 2 b)))

-- A word that is split at bit k gives its parts back.
pub div-pow_split : (k r q : ℕ) → r < 2 ^ k → (r + q * 2 ^ k) / 2 ^ k ≡ q
div-pow_split k r q fits =
    omega (arith, add-mul-div_right r q (one-le-pow k 2 (omega arith)), div-eq_of_lt fits)

pub mod-pow_split : (k r q : ℕ) → r < 2 ^ k → (r + q * 2 ^ k) % 2 ^ k ≡ r
mod-pow_split k r q fits = add-mul-mod_self_right r q (2 ^ k) ∙ mod-eq_of_lt fits

-- `q << k | r` with the fields the other way round.
pub disjoint-bit_or : (k r q : ℕ) → r < 2 ^ k → bit_or (q * 2 ^ k) r ≡ r + q * 2 ^ k
disjoint-bit_or zero r q fits = ground (arith, bit_or-zero_below (q * 2 ^ 0) (q * 2 ^ 0))
disjoint-bit_or (suc k) r q fits = ground (
  arith,
  bit_or_low (q * 2 ^ suc k) r,
  mul-pow_suc q k,
  pow-suc 2 k,
  disjoint-bit_or k (r / 2) q (omega (arith, pow-suc 2 k)),
)

-- A mask with k low zeros clears k bits.
pub bit_and-shifted :
    (k r q m : ℕ) → r < 2 ^ k → bit_and (r + q * 2 ^ k) (m * 2 ^ k) ≡ bit_and q m * 2 ^ k
bit_and-shifted zero r q m fits = ground arith
bit_and-shifted (suc k) r q m fits = ground (
  arith,
  bit_and_low (r + q * 2 ^ suc k) (m * 2 ^ suc k),
  mul-pow_suc q k,
  mul-pow_suc m k,
  mul-pow_suc (bit_and q m) k,
  pow-suc 2 k,
  bit_and-shifted k (r / 2) q m (omega (arith, pow-suc 2 k)),
)

pub and_not-low16 : (h : ℕ) → h < 2 ^ 64 → and_not h 0xFFFF ≡ h / 2 ^ 16 * 2 ^ 16
and_not-low16 h fits =
    ground (
      arith,
      bit_and-shifted 16 (h % 2 ^ 16) (h / 2 ^ 16) (2 ^ 48 - 1),
      bit_and-ones 48 (h / 2 ^ 16),
    )
