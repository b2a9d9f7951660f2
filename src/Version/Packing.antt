-- ===== src/Version/Packing.antt =====
-- The 64-bit form of core/common/version.go: what ToUint64 packs and NewVersionFromUint64 reads.
use Prim.Native.Nat.{bit_and, bit_or}
use native.Mathlib.Nat.{one-le-pow}
use go_anansi.Prelude.{ℕ, ◌+◌, ◌*◌, ◌/◌, ◌%◌, ◌^◌, ◌<◌, ◌≡◌, ◌∙◌, ap, arith}
use go_anansi.Prelude.Word.{shl, shr, bit_and-ones, disjoint-bit_or}
use go_anansi.Version.{Version, new_version_from_uint64, pack}

-- The fields fit the packed form.
pub record Fits (v : Version) : Type 0 where
  pub major_fits : v.major < 2 ^ 16
  pub minor_fits : v.minor < 2 ^ 16
  pub patch_fits : v.patch < 2 ^ 16
  pub rank_fits : v.tag_type < 2 ^ 8
  pub tag_fits : v.tag_version < 2 ^ 8

bit_or-aligned : (k high r : ℕ) → high % 2 ^ k ≡ 0 → r < 2 ^ k → bit_or high r ≡ high + r
bit_or-aligned k high r h fits =
    let whole : high ≡ high / 2 ^ k * 2 ^ k = ground (arith, one-le-pow k 2) in
    ap (λ (t : ℕ). bit_or t r) whole
    ∙ disjoint-bit_or k r (high / 2 ^ k) fits
    ∙ omega (arith, whole)

layout :
    (a b c d e : ℕ)
    → a < 2 ^ 16
    → b < 2 ^ 16
    → c < 2 ^ 16
    → d < 2 ^ 8
    → e < 2 ^ 8
    → bit_or (bit_or (bit_or (bit_or (shl a 48) (shl b 32)) (shl c 16)) (shl d 8)) e
      ≡ e + d * 2 ^ 8 + c * 2 ^ 16 + b * 2 ^ 32 + a * 2 ^ 48
layout a b c d e ha hb hc hd he = ground (
  arith,
  bit_or-aligned 48 (a * 2 ^ 48) (b * 2 ^ 32),
  bit_or-aligned 32 (a * 2 ^ 48 + b * 2 ^ 32) (c * 2 ^ 16),
  bit_or-aligned 16 (a * 2 ^ 48 + b * 2 ^ 32 + c * 2 ^ 16) (d * 2 ^ 8),
  bit_or-aligned 8 (a * 2 ^ 48 + b * 2 ^ 32 + c * 2 ^ 16 + d * 2 ^ 8) e,
)

-- The packed form as arithmetic on the low bits of the fields.
pub pack_lem :
    (v : Version)
    → pack v
      ≡ v.tag_version % 2 ^ 8
        + v.tag_type % 2 ^ 8 * 2 ^ 8
        + v.patch % 2 ^ 16 * 2 ^ 16
        + v.minor % 2 ^ 16 * 2 ^ 32
        + v.major % 2 ^ 16 * 2 ^ 48
unfolding pack
pack_lem v =
    rw
      (
        bit_and-ones 16 v.major,
        bit_and-ones 16 v.minor,
        bit_and-ones 16 v.patch,
        bit_and-ones 8 v.tag_type,
        bit_and-ones 8 v.tag_version,
      )
      (layout _ _ _ _ _ (omega arith) (omega arith) (omega arith) (omega arith) (omega arith))

-- A 64-bit number that is unpacked into a version and packed again is the same number.
pub pack-from_uint64 : (w : ℕ) → w < 2 ^ 64 → pack (new_version_from_uint64 w) ≡ w
unfolding new_version_from_uint64
pack-from_uint64 w fits = omega (
  arith,
  pack_lem (new_version_from_uint64 w),
  bit_and-ones 16 (w / 2 ^ 48),
  bit_and-ones 16 (w / 2 ^ 32),
  bit_and-ones 16 (w / 2 ^ 16),
  bit_and-ones 8 (w / 2 ^ 8),
  bit_and-ones 8 w,
)

-- A version whose fields fit is read back by NewVersionFromUint64 from its packed form.
pub from_uint64-pack : (v : Version) → Fits v → new_version_from_uint64 (pack v) ≡ v
unfolding new_version_from_uint64
from_uint64-pack v f =
    let w : ℕ = pack v in
    let whole = pack_lem v in
    let e : bit_and (shr w 48) 0xFFFF ≡ v.major =
      omega (arith, whole, f, bit_and-ones 16 (w / 2 ^ 48)) in
    let e2 : bit_and (shr w 32) 0xFFFF ≡ v.minor =
      omega (arith, whole, f, bit_and-ones 16 (w / 2 ^ 32)) in
    let e3 : bit_and (shr w 16) 0xFFFF ≡ v.patch =
      omega (arith, whole, f, bit_and-ones 16 (w / 2 ^ 16)) in
    let e4 : bit_and (shr w 8) 0xFF ≡ v.tag_type =
      omega (arith, whole, f, bit_and-ones 8 (w / 2 ^ 8)) in
    let e5 : bit_and w 0xFF ≡ v.tag_version = omega (arith, whole, f, bit_and-ones 8 w) in
    rw (e, e2, e3, e4, e5)
