-- ===== src/Version/History.antt =====
-- core/common/version.go, Versionable: a current version and the versions before it. Its pointers
-- are never nil once NewVersionable has made it, so they are versions. The methods return a new
-- value, and the receiver is not changed.
pub mod Laws
pub mod Lookup
pub mod Rising
use go_anansi.Prelude.{ℕ, suc, Bool, true, false, Option, none, some, List, [], ◌∷◌, ◌++◌}
use go_anansi.Prelude.{length, get_elem?, take, ◌+◌, ◌-◌, leb, ltb, ◌==◌, if◌then◌else◌, not}
use go_anansi.Prelude.Int.{ℤ, pos, negsuc}
use go_anansi.Prelude.Result.{Result, ok, err, ◌>>=◌}
use go_anansi.Version.{Version, compare, rank_stable, inc, is_prerelease}
use go_anansi.Version.{
  bump_major as raise_major, bump_minor as raise_minor, bump_patch as raise_patch,
}
use go_anansi.Version.Address.{max_history_size, history_address_to_absolute}
use go_anansi.Version.Address.{absolute_to_history_address}
use go_anansi.Version.Text.{Str}
use go_anansi.Version.Registry.{VersionRegistry, VersionError, parse, tag_rank, unknown_tag}
use go_anansi.Version.Registry.{history_full, invalid_address, not_prerelease, already_stable}
use go_anansi.Version.Registry.{version_not_found}

pub record Versionable : Type 0 where
  pub current : Version
  pub history : List Version
  pub registry : VersionRegistry

unfoldable pub parse_all : (ℕ → ℕ) → VersionRegistry → List Str → Result VersionError (List Version)
parse_all lower r [] = ok []
parse_all lower r (h ∷ rest) =
    parse lower r h >>= λ (v : Version). parse_all lower r rest >>= λ vs. ok (v ∷ vs)

-- The receiver of a nil registry is refused before this.
unfoldable pub new_versionable :
    (ℕ → ℕ) → VersionRegistry → Str → List Str → Result VersionError Versionable
new_versionable lower r current history = parse lower r current >>= λ (v : Version).
    parse_all lower r history >>= λ (vs : List Version).
    if ltb max_history_size (length vs)
    then err history_full
    else (ok record { current = v; history = vs; registry = r })

unfoldable pub total_versions : Versionable → ℕ
total_versions v = length (v.history) + 1

abbrev pub found_or : Option Version → Result VersionError Version
found_or none = err invalid_address
found_or (some v) = ok v

unfoldable pub resolve : Versionable → ℕ → Result VersionError Version
resolve v addr =
    let absolute = history_address_to_absolute addr in
    if leb (length (v.history)) absolute
    then err invalid_address
    else found_or (get_elem? (v.history) absolute)

abbrev pub is_zero : ℤ → Bool
is_zero (pos n) = n == 0
is_zero (negsuc n) = false

-- the loop of `Index` from position `i` on
unfoldable pub index_from : ℕ → List Version → Version → Result VersionError ℕ
index_from i [] version = err version_not_found
index_from i (h ∷ rest) version =
    let later = index_from (suc i) rest version in
    if is_zero (compare (some h) (some version))
    then ok (absolute_to_history_address (pos i))
    else later

unfoldable pub index : Versionable → Option Version → Result VersionError ℕ
index v none = err version_not_found
index v (some version) = index_from 0 (v.history) version

-- the receiver with the current version in its history and a new current one
abbrev pub moved_to : Versionable → Version → Versionable
moved_to v new_ver = record {
  current = new_ver;
  history = v.history ++ (v.current ∷ []);
  registry = v.registry;
}

-- The receiver is changed, and the error is nil on success.
unfoldable pub add_to_history : Versionable → Version → Result VersionError Versionable
add_to_history v new_current =
    if leb max_history_size (length (v.history))
    then err history_full
    else ok (moved_to v new_current)

-- The source gives the copy the new version as its current one, appends that, drops what it
-- appended, and appends the old current version.
unfoldable pub bump_major : Versionable → Result VersionError Versionable
bump_major v =
    let new_ver = raise_major (v.current) in
    add_to_history record { current = new_ver; history = v.history; registry = v.registry } new_ver
    >>= λ (added : Versionable). ok record {
      current = new_ver;
      history = take (length (added.history) - 1) (added.history) ++ (v.current ∷ []);
      registry = added.registry;
    }

unfoldable pub bump_minor : Versionable → Result VersionError Versionable
bump_minor v = ok (moved_to v (raise_minor (v.current)))

unfoldable pub bump_patch : Versionable → Result VersionError Versionable
bump_patch v = ok (moved_to v (raise_patch (v.current)))

abbrev pub with_tag : Version → Option ℕ → ℕ → Result VersionError Version
with_tag base none number = err unknown_tag
with_tag base (some rank) number = ok record {
  major = base.major;
  minor = base.minor;
  patch = base.patch;
  tag_type = rank;
  tag_version = number;
}

unfoldable pub prerelease : Versionable → Str → Result VersionError Versionable
prerelease v tag =
    with_tag (raise_minor (v.current)) (tag_rank ((v.registry).tags) tag) 1
    >>= λ (new_ver : Version). ok (moved_to v new_ver)

unfoldable pub increment : Versionable → Result VersionError Versionable
increment v =
    let c = v.current in
    if is_prerelease c
    then ok (
        moved_to v record {
          major = c.major;
          minor = c.minor;
          patch = c.patch;
          tag_type = c.tag_type;
          tag_version = inc (c.tag_version);
        })
    else err not_prerelease

unfoldable pub promote : Versionable → Str → Result VersionError Versionable
promote v tag =
    if is_prerelease (v.current)
    then (with_tag (v.current) (tag_rank ((v.registry).tags) tag) 1 >>= λ (new_ver : Version).
        ok (moved_to v new_ver))
    else err not_prerelease

unfoldable pub stabilize : Versionable → Result VersionError Versionable
stabilize v =
    let c = v.current in
    if is_prerelease c
    then ok (
        moved_to v record {
          major = c.major;
          minor = c.minor;
          patch = c.patch;
          tag_type = rank_stable;
          tag_version = 0;
        })
    else err already_stable
