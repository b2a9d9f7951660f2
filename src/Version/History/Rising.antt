-- ===== src/Version/History/Rising.antt =====
-- Versionable in core/common/version.go: the operations move to a later version, as long as the
-- fields stay within their packed width.
use go_anansi.Prelude.{ℕ, ◌+◌, ◌^◌, ◌<◌, ◌≡◌, ◌≢◌, refl, arith, some, none, Option}
use go_anansi.Prelude.Int.{negsuc}
use go_anansi.Prelude.Result.{ok, ok-injective, bind-ok}
use go_anansi.Version.{Version, compare, to_uint64, pack, rank_stable, is_prerelease, inc}
use go_anansi.Version.{bump_major as raise_major, bump_minor as raise_minor}
use go_anansi.Version.{bump_patch as raise_patch}
use go_anansi.Version.Packing.{pack_lem}
use go_anansi.Version.Text.{Str}
use go_anansi.Version.Registry.{tag_rank}
use go_anansi.Version.History.{
  Versionable, bump_minor, bump_patch, increment, stabilize, prerelease, moved_to, with_tag,
}
use go_anansi.Version.History.Laws.{
  Operation, raising_major, raising_minor, raising_patch, incrementing, stabilizing, prereleasing,
  promoting, run, bump_major_ok,
}

-- Room for one more in every field.
pub record HasRoom (v : Version) : Type 0 where
  pub major_room : v.major + 1 < 2 ^ 16
  pub minor_room : v.minor + 1 < 2 ^ 16
  pub patch_room : v.patch + 1 < 2 ^ 16
  pub rank_room : v.tag_type < 2 ^ 8
  pub tag_room : v.tag_version + 1 < 2 ^ 8

compare_lt : (v w : Version) → pack v < pack w → compare (some v) (some w) ≡ negsuc 0
unfolding compare to_uint64
compare_lt v w h = ground arith

major_rises : (v : Version) → HasRoom v → pack v < pack (raise_major v)
unfolding raise_major
major_rises v room = omega (arith, room, pack_lem v, pack_lem (raise_major v))

minor_rises :
    (v : Version) (rank number : ℕ)
    → HasRoom v
    → pack v
      < pack record {
        major = v.major;
        minor = inc v.minor;
        patch = 0;
        tag_type = rank;
        tag_version = number;
      }
minor_rises v rank number room = omega (
  arith,
  room,
  pack_lem v,
  pack_lem record {
    major = v.major;
    minor = inc v.minor;
    patch = 0;
    tag_type = rank;
    tag_version = number;
  },
)

patch_rises : (v : Version) → HasRoom v → pack v < pack (raise_patch v)
unfolding raise_patch
patch_rises v room = omega (arith, room, pack_lem v, pack_lem (raise_patch v))

tag_rises :
    (v : Version)
    → HasRoom v
    → pack v
      < pack record {
        major = v.major;
        minor = v.minor;
        patch = v.patch;
        tag_type = v.tag_type;
        tag_version = inc v.tag_version;
      }
tag_rises v room = omega (
  arith,
  room,
  pack_lem v,
  pack_lem record {
    major = v.major;
    minor = v.minor;
    patch = v.patch;
    tag_type = v.tag_type;
    tag_version = inc v.tag_version;
  },
)

stable_rises :
    (v : Version)
    → HasRoom v
    → v.tag_type ≢ rank_stable
    → pack v
      < pack record {
        major = v.major;
        minor = v.minor;
        patch = v.patch;
        tag_type = rank_stable;
        tag_version = 0;
      }
stable_rises v room unstable = ground (
  arith,
  room,
  pack_lem v,
  pack_lem record {
    major = v.major;
    minor = v.minor;
    patch = v.patch;
    tag_type = rank_stable;
    tag_version = 0;
  },
)

with_tag_rises :
    (v : Version) (o : Option ℕ) (n : Version)
    → HasRoom v
    → with_tag (raise_minor v) o 1 ≡ ok n
    → pack v < pack n
unfolding raise_minor
with_tag_rises v none n room e = absurd (ground (arith, e))
with_tag_rises v (some rank) n room e = rw (← ok-injective _ n e) (minor_rises v rank 1 room)

-- Every operation on a Versionable but Promote, if it succeeds, moves to a version that compares
-- above the current one, provided each number of the current one can be raised within its packed
-- width and its rank fits 8 bits.
pub run_rises :
    (o : Operation) (v w : Versionable)
    → HasRoom v.current
    → ((tag : Str) → o ≢ promoting tag)
    → run o v ≡ ok w
    → compare (some v.current) (some w.current) ≡ negsuc 0
unfolding run bump_minor bump_patch increment stabilize prerelease is_prerelease raise_minor
run_rises raising_major v w room other e =
    rw (← bump_major_ok v w e) (compare_lt _ _ (major_rises v.current room))
run_rises raising_minor v w room other e =
    rw (← ok-injective _ w e) (compare_lt _ _ (minor_rises v.current rank_stable 0 room))
run_rises raising_patch v w room other e =
    rw (← ok-injective _ w e) (compare_lt _ _ (patch_rises v.current room))
run_rises incrementing v w room other e =
    compare_lt v.current w.current (ground (arith, e, tag_rises v.current room))
run_rises stabilizing v w room other e =
    compare_lt v.current w.current (ground (arith, e, stable_rises v.current room))
run_rises (prereleasing tag) v w room other e =
    let (new_ver, tagged, moved) =
      bind-ok (with_tag (raise_minor v.current) (tag_rank v.registry.tags tag) 1)
        (λ n. ok (moved_to v n)) e in
    rw (← ok-injective _ w moved)
      (compare_lt _ _ (with_tag_rises v.current (tag_rank v.registry.tags tag) new_ver room tagged))
run_rises (promoting tag) v w room other e = absurd (other tag refl)
