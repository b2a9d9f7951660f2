-- ===== src/Version.antt =====
-- core/common/version.go: semantic versions, their order and their bumps. A Go `int` is its 64-bit
-- pattern, a number below 2 ^ 64, and a `TagRank` a number below 256. A `*Version` that may be nil
-- is an Option.
pub mod Packing
pub mod Order
pub mod History
pub mod Address
pub mod Text
pub mod Registry
pub mod RoundTrip
pub mod Tests
use Prim.Native.Nat.{bit_and, bit_or}
use go_anansi.Prelude.{ℕ, ◌+◌, ◌^◌, ◌%◌, Bool, true, false, not, Option, none, some, List, [], ◌∷◌}
use go_anansi.Prelude.{ltb, ◌==◌, if◌then◌else◌}
use go_anansi.Prelude.Int.{ℤ, pos, negsuc}
use go_anansi.Prelude.Word.{shl, shr}

abbrev pub rank_none : ℕ
rank_none = 0

abbrev pub rank_stable : ℕ
rank_stable = 255

pub record Version : Type 0 where
  pub major : ℕ
  pub minor : ℕ
  pub patch : ℕ
  pub tag_type : ℕ
  pub tag_version : ℕ

-- `x + 1` on an `int`
abbrev pub inc : ℕ → ℕ
inc x = (x + 1) % 2 ^ 64

unfoldable pub new_version_from_uint64 : ℕ → Version
new_version_from_uint64 w = record {
  major = bit_and (shr w 48) 0xFFFF;
  minor = bit_and (shr w 32) 0xFFFF;
  patch = bit_and (shr w 16) 0xFFFF;
  tag_type = bit_and (shr w 8) 0xFF;
  tag_version = bit_and w 0xFF;
}

unfoldable pub pack : Version → ℕ
pack v =
    let major_part = shl (bit_and (v.major) 0xFFFF) 48 in
    let minor_part = bit_or major_part (shl (bit_and (v.minor) 0xFFFF) 32) in
    let patch_part = bit_or minor_part (shl (bit_and (v.patch) 0xFFFF) 16) in
    let rank_part = bit_or patch_part (shl (bit_and (v.tag_type) 0xFF) 8) in
    bit_or rank_part (bit_and (v.tag_version) 0xFF)

unfoldable pub to_uint64 : Option Version → ℕ
to_uint64 none = 0
to_uint64 (some v) = pack v

unfoldable pub compare : Option Version → Option Version → ℤ
compare v other =
    if ltb (to_uint64 v) (to_uint64 other)
    then negsuc 0
    else if ltb (to_uint64 other) (to_uint64 v)
    then pos 1
    else pos 0

unfoldable pub bump_major : Version → Version
bump_major v = record {
  major = inc (v.major);
  minor = 0;
  patch = 0;
  tag_type = rank_stable;
  tag_version = 0;
}

unfoldable pub bump_minor : Version → Version
bump_minor v = record {
  major = v.major;
  minor = inc (v.minor);
  patch = 0;
  tag_type = rank_stable;
  tag_version = 0;
}

unfoldable pub bump_patch : Version → Version
bump_patch v = record {
  major = v.major;
  minor = v.minor;
  patch = inc (v.patch);
  tag_type = rank_stable;
  tag_version = 0;
}

unfoldable pub is_prerelease : Version → Bool
is_prerelease v = not (v.tag_type == rank_stable)

abbrev pub is_positive : ℤ → Bool
is_positive (pos n) = ltb 0 n
is_positive (negsuc n) = false

-- the loop of `slices.MaxFunc` after the first element
unfoldable pub max_from : Version → List Version → Version
max_from best [] = best
max_from best (v ∷ rest) =
    max_from (if is_positive (compare (some v) (some best)) then v else best) rest

unfoldable pub latest : List Version → Option Version
latest [] = none
latest (v ∷ rest) = some (max_from v rest)
