-- ===== src/Version/Registry.antt =====
-- The version strings of core/common/version.go: Parse and StringWithRegistry over a registry's
-- tags. A map is the list of its entries in the order in which `range` visits them.
use go_anansi.Prelude.{ℕ, Option, none, some, List, [], ◌∷◌, ◌++◌, ◌==◌}
use go_anansi.Prelude.{if◌then◌else◌}
use go_anansi.Prelude.Result.{Result, ok, err, ◌>>=◌}
use go_anansi.Version.{Version, rank_stable, rank_none}
use go_anansi.Version.Text.{Str, dot, hyphen, plus, trim_space, trim_prefix, split, cut, to_lower}
use go_anansi.Version.Text.{str_eq, atoi, decimal}

pub record VersionRegistry : Type 0 where
  pub name : Str
  pub tags : List (Str × ℕ)
  pub default : ℕ

pub data VersionError : Type 0 where
  invalid_format invalid_major invalid_minor invalid_patch : VersionError
  history_full invalid_address not_prerelease already_stable : VersionError
  version_not_found unknown_tag : VersionError

unfoldable pub tag_rank : List (Str × ℕ) → Str → Option ℕ
tag_rank [] tag = none
tag_rank ((key, rank) ∷ rest) tag =
    let later = tag_rank rest tag in if str_eq key tag then some rank else later

-- a number that must parse
abbrev pub component : VersionError → Str → Result VersionError ℕ
component e s = let (n, good) = atoi s in if good then ok n else err e

abbrev pub rank_or : ℕ → Option ℕ → ℕ
rank_or d none = d
rank_or d (some rank) = rank

abbrev pub second_number : List Str → ℕ
second_number [] = 0
second_number (s ∷ rest) = let (n, good) = atoi s in n

abbrev pub tag_of : (ℕ → ℕ) → VersionRegistry → List Str → ℕ × ℕ
tag_of lower r [] = (r.default, 0)
tag_of lower r (tag ∷ rest) =
    (rank_or (r.default) (tag_rank (r.tags) (to_lower lower tag)), second_number rest)

-- the rank and the number after the first hyphen
unfoldable pub parse_tag : (ℕ → ℕ) → VersionRegistry → Option Str → ℕ × ℕ
parse_tag lower r none = (rank_stable, 0)
parse_tag lower r (some tag_body) =
    let (body, build) = cut plus tag_body in tag_of lower r (split dot body)

unfoldable pub parse_parts : List Str → Result VersionError (ℕ × ℕ × ℕ)
parse_parts (first ∷ second ∷ third ∷ []) = component invalid_major first >>= λ (major : ℕ).
    component invalid_minor second >>= λ (minor : ℕ).
    component invalid_patch third >>= λ (patch : ℕ). ok (major, minor, patch)
parse_parts _ = err invalid_format

unfoldable pub parse : (ℕ → ℕ) → VersionRegistry → Str → Result VersionError Version
parse lower r version =
    let clean = trim_prefix 0x56 (trim_prefix 0x76 (trim_space version)) in
    let (main, after) = cut hyphen clean in
    let (rank, number) = parse_tag lower r after in
    parse_parts (split dot main) >>= λ (numbers : ℕ × ℕ × ℕ).
    let (major, minor, patch) = numbers in
    ok record { major = major; minor = minor; patch = patch; tag_type = rank; tag_version = number }

-- "unknown"
abbrev unknown : Str
unknown = 0x75 ∷ 0x6E ∷ 0x6B ∷ 0x6E ∷ 0x6F ∷ 0x77 ∷ 0x6E ∷ []

unfoldable pub tag_name : List (Str × ℕ) → ℕ → Str
tag_name [] rank = unknown
tag_name ((key, r) ∷ rest) rank = let later = tag_name rest rank in if r == rank then key else later

unfoldable pub string_with_registry : VersionRegistry → Version → Str
string_with_registry r v =
    let base = decimal (v.major) ++ (dot ∷ decimal (v.minor) ++ (dot ∷ decimal (v.patch))) in
    if v.tag_type == rank_stable
    then base
    else base ++ (hyphen ∷ tag_name (r.tags) (v.tag_type) ++ (dot ∷ decimal (v.tag_version)))

-- `DefaultRegistry`, as long as `ConfigureVersioning` has not replaced it: "alpha", "beta", "rc"
abbrev pub default_registry : VersionRegistry
default_registry = record {
  name = 0x73 ∷ 0x74 ∷ 0x61 ∷ 0x6E ∷ 0x64 ∷ 0x61 ∷ 0x72 ∷ 0x64 ∷ [];
  tags =
      (0x61 ∷ 0x6C ∷ 0x70 ∷ 0x68 ∷ 0x61 ∷ [], 10)
      ∷ (0x62 ∷ 0x65 ∷ 0x74 ∷ 0x61 ∷ [], 20)
      ∷ (0x72 ∷ 0x63 ∷ [], 30)
      ∷ [];
  default = rank_none;
}
